-- ===== src/Service/Summary.antt =====
-- internal/service/summary.go and internal/repo/sqlc/summary.sql.go: the monthly summary of an
-- account, cached in Redis.
pub mod Coherent
mod Tests
use ledger_x.Prelude.{
  ℕ, Bool, ◌&&◌, not, Option, some, List, ◌∷◌, ◌==◌, ltb, leb, ◌^◌, if◌then◌else◌,
}
use ledger_x.Prelude.Int.{ℤ, pos, pos_part, neg_part, ◌-ℤ◌, ltb_ℤ}
use ledger_x.Prelude.Select.{find_row, exists_row, where_rows, sum_where}
use ledger_x.Repo.Models.{Transaction, Posting, Database}
use ledger_x.Repo.World.{
  Result, ok, err, out_of_range, Action, pure, ◌>>=◌, ◌>>◌, call, CacheEntry, MonthlySummary,
}
use ledger_x.Service.Types.{Env, GoTime}
use ledger_x.Service.Samples.{account}

-- JOIN transactions t ON t.id = p.transaction_id … WHERE date_trunc('month', t.occurred_at) =
-- date_trunc('month', $2): `month` is an instant, and the session's zone truncates both.
abbrev pub in_month : Env → List Transaction → ℕ → Posting → Bool
in_month env ts month p =
    exists_row
      (λ (t : Transaction).
        t.id == p.transaction_id && env.sql_month t.occurred_at == env.sql_month month)
      ts

abbrev pub counts_in : Env → Database → ℕ → ℕ → Posting → Bool
counts_in env d account month p = p.account_id == account && in_month env d.transactions month p

-- CASE WHEN amount_minor > 0 THEN amount_minor ELSE 0 END, and its opposite
abbrev pub inflow_of : ℤ → ℤ
inflow_of a = if ltb_ℤ (pos 0) a then a else pos 0

abbrev pub outflow_of : ℤ → ℤ
outflow_of a = if ltb_ℤ a (pos 0) then pos 0 -ℤ a else pos 0

-- ::bigint
abbrev pub fits_bigint : ℤ → Bool
fits_bigint a = ltb (pos_part a) (2 ^ 63) && leb (neg_part a) (2 ^ 63)

unfoldable pub summary_of : Env → Database → ℕ → ℕ → MonthlySummary
summary_of env d account month = record {
  inflow = sum_where (counts_in env d account month) (λ p. inflow_of p.amount_minor) d.postings;
  outflow = sum_where (counts_in env d account month) (λ p. outflow_of p.amount_minor) d.postings;
  net = sum_where (counts_in env d account month) (λ p. p.amount_minor) d.postings;
}

unfoldable pub query_monthly_summary : Env → ℕ → ℕ → Action MonthlySummary
query_monthly_summary env account month = call λ w.
    let s = summary_of env w.db account month in
    if fits_bigint s.inflow && fits_bigint s.outflow && fits_bigint s.net
    then (ok s, w)
    else (err out_of_range, w)

-- "summary:<account>:<YYYY-MM>"
abbrev pub is_entry : ℕ → ℕ → CacheEntry → Bool
is_entry account month c = c.account_id == account && c.month == month

abbrev pub cached : ℕ → ℕ → List CacheEntry → Option CacheEntry
cached account month = find_row (is_entry account month)

abbrev pub without_entry : ℕ → ℕ → List CacheEntry → List CacheEntry
without_entry account month = where_rows (λ c. not (is_entry account month c))

-- `_ = …`: the error is dropped.
unfoldable pub ignore : {A : Type 0} → Action A → Action Unit
ignore m w = let (r, w') = m w in (ok tt, w')

unfoldable pub set_entry : ℕ → ℕ → MonthlySummary → Action Unit
set_entry account month s = call λ w. (
  ok tt,
  record w {
    cache =
        record { account_id = account; month = month; summary = s }
        ∷ without_entry account month w.cache;
  },
)

unfoldable pub invalidate : ℕ → ℕ → Action Unit
invalidate account month =
    ignore (call (λ w. (ok tt, record w { cache = without_entry account month w.cache })))

unfoldable pub get_entry : ℕ → ℕ → Action (Option CacheEntry)
get_entry account month = call (λ w. (ok (cached account month w.cache), w))

-- month.Format("2006-01"), in the zone of `month`
abbrev pub month_key : Env → GoTime → ℕ
month_key env month = env.civil_month month.wall

-- A miss, and a Redis error too, go to the database.
unfoldable pub or_query : Env → ℕ → GoTime → Result (Option CacheEntry) → Action MonthlySummary
or_query env account month (ok (some c)) = pure c.summary
or_query env account month _ = do
  s ← query_monthly_summary env account (env.store_time month.instant)
  ignore (set_entry account (month_key env month) s)
  pure s

unfoldable pub get_monthly_summary : Env → ℕ → GoTime → Action MonthlySummary
get_monthly_summary env account month w =
    let (r, w') = get_entry account (month_key env month) w in or_query env account month r w'
