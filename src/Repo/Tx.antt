-- ===== src/Repo/Tx.antt =====
-- pgx transactions: Begin, Commit with the deferred trigger of
-- migrations/000012_double_entry.up.sql, and the deferred Rollback of the services.
use ledger_x.Prelude.{ℕ, Bool, true, ◌&&◌, none, some, List, [], ◌∷◌, ◌==◌, ltb, leb, if◌then◌else◌}
use ledger_x.Prelude.Int.{ℤ, pos, eq_ℤ, pos_part, neg_part}
use ledger_x.Prelude.Select.{sum_where}
use ledger_x.Prelude.{◌^◌}
use ledger_x.Repo.Models.{Posting}
use ledger_x.Repo.World.{
  unavailable, next_fault, later_faults, fine, Fault, World, ok, err, trigger_raised, Action, call,
}

-- SELECT SUM(amount_minor) FROM postings WHERE transaction_id = t, as NUMERIC
abbrev pub tx_sum : ℕ → List Posting → ℤ
tx_sum t = sum_where (λ p. p.transaction_id == t) (λ p. p.amount_minor)

-- check_transaction_balanced: the total is assigned to a BIGINT, which raises out of range, and
-- has to be 0.
unfoldable pub trigger_passes : List Posting → ℕ → Bool
trigger_passes ps t =
    let total = tx_sum t ps in
    ltb (pos_part total) (2 ^ 63) && leb (neg_part total) (2 ^ 63) && eq_ℤ total (pos 0)

unfoldable pub triggers_pass : List Posting → List ℕ → Bool
triggers_pass ps [] = true
triggers_pass ps (t ∷ ts) = trigger_passes ps t && triggers_pass ps ts

-- A connection on which BEGIN is not acknowledged is closed, and the server rolls back.
unfoldable pub begin_after : Fault → Action Unit
begin_after fine w = (ok tt, record w { saved = some w.db; deferred = [] })
begin_after _ w = (err unavailable, w)

unfoldable pub begin : Action Unit
begin w = begin_after (next_fault w.faults) (record w { faults = later_faults w.faults })

-- A no-op where no transaction is open.
unfoldable pub rollback : World → World
rollback w = elim w.saved [ none ↦ w | some d ↦ record w { db = d; saved = none; deferred = [] } ]

-- What COMMIT does on the server.
unfoldable pub finish : Action Unit
finish w =
    if triggers_pass w.db.postings w.deferred
    then (ok tt, record w { saved = none; deferred = [] })
    else (err trigger_raised, rollback w)

unfoldable pub commit : Action Unit
commit = call finish

-- defer func() { _ = tx.Rollback(ctx) }()
unfoldable pub with_rollback : {A : Type 0} → Action A → Action A
with_rollback m w = let (r, w') = m w in (r, rollback w')
