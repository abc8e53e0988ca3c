-- ===== src/Service/Summary/Coherent.antt =====
-- Whether the cached summaries agree with the tables.
use ledger_x.Prelude.{
  ◌∙◌, true, some, none, arith, Option, ==_iff, ◌≡◌, ◌&&◌, ℕ, sym, refl, inr, inl, if◌then◌else◌,
  Bool-cases, All,
}
use ledger_x.Repo.World.{
  ◌>>=◌, unavailable, pure, continue, Action, unacknowledged, out_of_range, ok, next_fault,
  later_faults, fine, failed, err, call, answer, World, Result, MonthlySummary, Fault, Error,
  CacheEntry,
}
use ledger_x.Repo.Models.{Database}
use ledger_x.Service.Types.{GoTime, Env}
use ledger_x.Service.Summary.{
  month_key, set_entry, or_query, is_entry, ignore, get_monthly_summary, get_entry, cached,
  summary_of, query_monthly_summary, fits_bigint,
}
use ledger_x.Repo.Keeps.{Keeps-call, Keeps}
use ledger_x.Prelude.Kept.{where_rows-All, find_row-All}
use ledger_x.Prelude.Select.{find_row_holds}

-- `start` gives the first instant of each month "YYYY-MM", as time.Parse reads it: in UTC.
abbrev pub Agrees : Env → (ℕ → ℕ) → Database → CacheEntry → Type 0
Agrees env start d c = c.summary ≡ summary_of env d c.account_id (start c.month)

abbrev pub IsCoherent : Env → (ℕ → ℕ) → World → Type 0
IsCoherent env start w = All (Agrees env start w.db) w.cache

-- The instant that the query receives.
abbrev pub sent_month : Env → GoTime → ℕ
sent_month env month = env.store_time month.instant

module _ (env : Env) (start : ℕ → ℕ) (account : ℕ) (month : GoTime) where
  -- The tables are those of `d`, the cache agrees with them, and an answer is exact.
  pub record Answers (d : Database) (r : Result MonthlySummary × World) : Type 0 where
    pub db_same : r.1.db ≡ d
    pub coherent : IsCoherent env start r.1
    pub right :
        (s : MonthlySummary) → r.0 ≡ ok s → s ≡ summary_of env d account (sent_month env month)

module _ (env : Env) (start : ℕ → ℕ) (account : ℕ) (month : GoTime)
    (first : sent_month env month ≡ start (month_key env month)) where
  ok_same : {s t : MonthlySummary} → ok s ≡ ok t → s ≡ t
  ok_same e = cc

  no_answer :
      (d : Database) (e : Error) (v : World)
      → v.db ≡ d
      → IsCoherent env start v
      → Answers env start account month d (err e, v)
  no_answer d e v same h = record { db_same = same; coherent = h; right = λ s k. cc }

  query_row :
      (v : World)
      → IsCoherent env start v
      → Answers env start account month v.db (
          let s = summary_of env v.db account (sent_month env month) in
          if fits_bigint s.inflow && fits_bigint s.outflow && fits_bigint s.net
          then (ok s, v)
          else (err out_of_range, v))
  query_row v h =
      let s = summary_of env v.db account (sent_month env month) in
      elim (Bool-cases (fits_bigint s.inflow && fits_bigint s.outflow && fits_bigint s.net)) [
        | inl fits ↦
            rw fits (record { db_same = refl; coherent = h; right = λ t k. sym (ok_same k) })
        | inr over ↦ rw over (no_answer v.db out_of_range v refl h)
      ]

  answer-Answers :
      (d : Database) (f : Fault) (m : Action MonthlySummary) (v : World)
      → v.db ≡ d
      → IsCoherent env start v
      → Answers env start account month d (m v)
      → Answers env start account month d (answer f m v)
  unfolding answer
  answer-Answers d fine m v same h k = k
  answer-Answers d failed m v same h k = no_answer d unavailable v same h
  answer-Answers d unacknowledged m v same h k =
      no_answer d unavailable (m v).1 k.db_same k.coherent

  query-Answers :
      (w : World)
      → IsCoherent env start w
      → Answers env start account month w.db
          (query_monthly_summary env account (sent_month env month) w)
  unfolding query_monthly_summary call
  query-Answers w h =
      let v : World = record w { faults = later_faults w.faults } in
      answer-Answers w.db (next_fault w.faults) _ v refl h (query_row v h)

  -- The tables are those of `d`, and the cache agrees with them.
  abbrev Steady : Database → World → Type 0
  Steady d v = (v.db ≡ d) × IsCoherent env start v

  set_entry-Steady :
      (d : Database) (s : MonthlySummary)
      → s ≡ summary_of env d account (sent_month env month)
      → Keeps (Steady d) (set_entry account (month_key env month) s)
  unfolding set_entry
  set_entry-Steady d s exact =
      Keeps-call _ (λ w fs h. h)
        (record {
          at = λ w h. (
            h.0,
            (exact ∙ rw (h.0, first) refl, where_rows-All (Agrees env start w.db) _ w.cache h.1),
          );
        })

  remembered :
      (d : Database) (r : Result MonthlySummary × World)
      → Answers env start account month d r
      → Answers env start account month d (
          continue r.0
            (λ s. ignore (set_entry account (month_key env month) s) >>= λ _. pure s)
            r.1)
  unfolding ignore ◌>>=◌
  remembered d (err e, v) h = h
  remembered d (ok s, v) h =
      let exact : s ≡ summary_of env d account (sent_month env month) = h.right s refl in
      let kept = (set_entry-Steady d s exact).at v (h.db_same, h.coherent) in
      record { db_same = kept.0; coherent = kept.1; right = λ t k. sym (ok_same k) ∙ exact }

  or_query-Answers :
      (w : World)
      → IsCoherent env start w
      → Answers env start account month w.db (
          (query_monthly_summary env account (sent_month env month) >>= λ s.
          ignore (set_entry account (month_key env month) s) >>= λ _. pure s)
            w)
  unfolding ◌>>=◌
  or_query-Answers w h = remembered w.db _ (query-Answers w h)

  entry_fields :
      (c : CacheEntry)
      → is_entry account (month_key env month) c ≡ true
      → (c.account_id ≡ account) × (c.month ≡ month_key env month)
  entry_fields c h = (
    (==_iff c.account_id account).0 (ground arith),
    (==_iff c.month (month_key env month)).0 (ground arith),
  )

  hit :
      (c : CacheEntry) (w : World)
      → IsCoherent env start w
      → cached account (month_key env month) w.cache ≡ some c
      → Answers env start account month w.db (ok c.summary, w)
  hit c w h k =
      let agrees =
        find_row-All (Agrees env start w.db) (is_entry account (month_key env month)) w.cache c h
          k in
      let (a, m) =
        entry_fields c (find_row_holds (is_entry account (month_key env month)) w.cache c k) in
      record {
        db_same = refl;
        coherent = h;
        right = λ s e. sym (ok_same e) ∙ rw (a, m, ← first) at agrees;
      }

  after_get :
      (o : Option CacheEntry) (w : World)
      → IsCoherent env start w
      → cached account (month_key env month) w.cache ≡ o
      → Answers env start account month w.db (or_query env account month (ok o) w)
  unfolding or_query
  after_get none w h k = or_query-Answers w h
  after_get (some c) w h k = hit c w h k

  abbrev looked_up : Fault → World → Result (Option CacheEntry) × World
  looked_up f v = answer f (λ x. (ok (cached account (month_key env month) x.cache), x)) v

  fault-Answers :
      (f : Fault) (v : World)
      → IsCoherent env start v
      → Answers env start account month v.db
          (or_query env account month (looked_up f v).0 (looked_up f v).1)
  unfolding answer or_query
  fault-Answers fine v h = after_get (cached account (month_key env month) v.cache) v h refl
  fault-Answers failed v h = or_query-Answers v h
  fault-Answers unacknowledged v h = or_query-Answers v h

  -- When every cached summary is what the query answers for the first instant of its month, and
  -- GetMonthlySummary is asked for such an instant, it leaves under any faults the tables as
  -- they are and the cached summaries so, and what it answers, from the cache or not, is the
  -- summary of the account's postings in the month that the session's zone gives to the instant.
  pub get_monthly_summary-Answers :
      (w : World)
      → IsCoherent env start w
      → Answers env start account month w.db (get_monthly_summary env account month w)
  unfolding get_monthly_summary get_entry call
  get_monthly_summary-Answers w h =
      fault-Answers (next_fault w.faults) (record w { faults = later_faults w.faults }) h
