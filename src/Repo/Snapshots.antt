-- ===== src/Repo/Snapshots.antt =====
-- internal/repo/sqlc/balance_snapshots.sql.go and workers.sql.go.
use ledger_x.Prelude.{
  ◌∷◌, ◌^◌, ◌==◌, ◌+◌, ◌++◌, ◌&&◌, true, map, ltb, leb, if◌then◌else◌, [], Option, List, Bool, ℕ,
}
use ledger_x.Repo.Models.{Posting, BalanceSnapshot, Account}
use ledger_x.Repo.World.{
  raise, pure, out_of_range, one_row, ok, foreign_key_violation, err, call, Action,
}
use ledger_x.Repo.Transactions.{account_exists}
use ledger_x.Prelude.Select.{where_rows, update_rows, sum_where, order_by, find_row, exists_row}
use ledger_x.Prelude.Int.{ℤ, pos_part, neg_part}

-- SUM(…)::bigint
unfoldable pub as_bigint : ℤ → Action ℤ
as_bigint total =
    if ltb (pos_part total) (2 ^ 63) && leb (neg_part total) (2 ^ 63)
    then pure total
    else raise out_of_range

-- WHERE account_id = a AND created_at > since
abbrev pub sum_since : ℕ → ℕ → List Posting → ℤ
sum_since a since =
    sum_where (λ (p : Posting). p.account_id == a && ltb since p.created_at) (λ p. p.amount_minor)

-- WHERE account_id = a AND created_at <= cutoff
abbrev pub sum_up_to : ℕ → ℕ → List Posting → ℤ
sum_up_to a cutoff =
    sum_where (λ (p : Posting). p.account_id == a && leb p.created_at cutoff) (λ p. p.amount_minor)

unfoldable pub sum_postings_since : ℕ → ℕ → Action ℤ
sum_postings_since a since = call λ w. as_bigint (sum_since a since w.db.postings) w

unfoldable pub sum_postings_up_to : ℕ → ℕ → Action ℤ
sum_postings_up_to a cutoff = call λ w. as_bigint (sum_up_to a cutoff w.db.postings) w

-- ORDER BY as_of_date DESC LIMIT 1
abbrev pub latest_snapshot : ℕ → List BalanceSnapshot → Option BalanceSnapshot
latest_snapshot a ss =
    find_row (λ s. true)
      (order_by (λ (s : BalanceSnapshot) (t : BalanceSnapshot). ltb t.as_of_date s.as_of_date)
        (where_rows (λ (s : BalanceSnapshot). s.account_id == a) ss))

unfoldable pub get_latest_snapshot : ℕ → Action BalanceSnapshot
get_latest_snapshot a = call λ w. one_row (latest_snapshot a w.db.balance_snapshots) w

-- UNIQUE (account_id, as_of_date)
abbrev pub same_day : ℕ → ℕ → BalanceSnapshot → Bool
same_day a day s = s.account_id == a && s.as_of_date == day

abbrev pub with_balance : ℤ → BalanceSnapshot → BalanceSnapshot
with_balance balance s = record s { balance_minor = balance }

-- ON CONFLICT DO UPDATE SET balance_minor; the id is drawn in both cases.
unfoldable pub upsert_snapshot : ℕ → ℕ → ℤ → Action Unit
upsert_snapshot a day balance w =
    let row : BalanceSnapshot = record {
      id = w.seqs.balance_snapshots;
      account_id = a;
      as_of_date = day;
      balance_minor = balance;
      created_at = w.now;
    } in
    let w' = record w {
      seqs = record w.seqs { balance_snapshots = w.seqs.balance_snapshots + 1 };
    } in
    let ss = w.db.balance_snapshots in
    if exists_row (same_day a day) ss
    then (
      ok tt,
      record w' {
        db = record w.db {
          balance_snapshots = update_rows (same_day a day) (with_balance balance) ss;
        };
      },
    )
    else if account_exists w.db a
    then (ok tt, record w' { db = record w.db { balance_snapshots = ss ++ row ∷ [] } })
    else (err foreign_key_violation, w')

unfoldable pub upsert_balance_snapshot : ℕ → ℕ → ℤ → Action Unit
upsert_balance_snapshot a day balance = call (upsert_snapshot a day balance)

-- WHERE is_active = TRUE ORDER BY id
unfoldable pub list_all_account_ids : Action (List ℕ)
list_all_account_ids = call λ w. (
  ok (
      map (λ (x : Account). x.id)
        (order_by (λ (x : Account) (y : Account). ltb x.id y.id)
          (where_rows (λ (x : Account). x.is_active) w.db.accounts))),
  w,
)
