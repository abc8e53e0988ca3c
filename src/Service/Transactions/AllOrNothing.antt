-- ===== src/Service/Transactions/AllOrNothing.antt =====
-- createBalanced under every pattern of faults: nothing, a replay, or the whole transaction.
use mathlib.Core.Path.{subst}
use ledger_x.Repo.Outcome.{weaken-Yields, Yields}
use ledger_x.Repo.Atomic.{begin-Atomic, IsReady, undone, replayed, write-Atomic, finally, Atomic}
use ledger_x.Service.Types.{TransactionDto, Env, BalancedInput}
use ledger_x.Repo.World.{◌>>=◌, ok, err, continue, World, Result, CacheEntry}
use ledger_x.Service.Transactions.Claimed.{claim_idempotency-Yields, StoredReply, Claims, Claimed}
use ledger_x.Repo.Models.{Database}
use ledger_x.Repo.Inside.{Inside}
use ledger_x.Prelude.{refl, inr, inl, Option-cases, ◌≡◌, some, none, Option, List}
use ledger_x.Service.Transactions.Recorded.{record_transaction-Yields, Recorded}
use ledger_x.Service.Summary.{cached}
use ledger_x.Service.Transactions.Claim.{claim_idempotency}
use ledger_x.Service.Transactions.Frame.{
  record_transaction-Inside, invalidate_legs-CacheOnly, claim_idempotency-Inside,
}
use ledger_x.Service.Transactions.Create.{
  create_balanced, request_hash, record_transaction, invalidate_legs, create_unless_cached,
  create_in_tx,
}
use ledger_x.Repo.Tx.{with_rollback, rollback}
use ledger_x.Repo.Commit.{rollback-RolledBack}
use ledger_x.Service.Transactions.Legs.{validate_legs}

-- The tables after a committed call: the key claimed, then the transaction recorded.
pub record Created (env : Env) (input : BalancedInput) (d : Database) (dto : TransactionDto)
    (d' : Database) : Type 0 where
  pub between : Database
  pub claimed : Claimed input.user_id input.idempotency_key (request_hash env input) d between
  pub recorded : Recorded env (request_hash env input) input between d' dto

-- The reply that an earlier request with this key and payload has left.
abbrev pub Replays : Env → BalancedInput → Database → TransactionDto → Type 0
Replays env input d = StoredReply env input.user_id input.idempotency_key (request_hash env input) d

module _ (env : Env) (input : BalancedInput) (d : Database) (c : List CacheEntry) where
  abbrev Ended : Result TransactionDto × World → Type 0
  Ended = Atomic d c (Replays env input d) (Created env input d)

  after_claim-Atomic :
      (cached : Option TransactionDto) (w : World)
      → Inside d c w
      → Claims env input.user_id input.idempotency_key (request_hash env input) d cached w
      → Ended (finally (create_unless_cached env (request_hash env input) input cached w))
  unfolding create_unless_cached
  after_claim-Atomic (some dto) w h k = replayed dto (rollback w) k (rollback-RolledBack d c w h)
  after_claim-Atomic none w h k =
      write-Atomic d c (Replays env input d) (Created env input d)
        (λ written. invalidate_legs (env.civil_month input.occurred_at.wall) written.1)
        (λ written. written.0) (λ written. invalidate_legs-CacheOnly _ written.1)
        (record_transaction env (request_hash env input) input) w
        (record_transaction-Inside d c env _ input)
        (weaken-Yields _ _ (record_transaction-Yields env _ input w)
          λ written w' (r, _). record { between = w.db; claimed = k; recorded = r })
        h

  claimed-Atomic :
      (r : Result (Option TransactionDto) × World)
      → Inside d c r.1
      → Yields (Claims env input.user_id input.idempotency_key (request_hash env input) d) r
      → Ended (finally (continue r.0 (create_unless_cached env (request_hash env input) input) r.1))
  claimed-Atomic (ok cached, w) h y = after_claim-Atomic cached w h y.at
  claimed-Atomic (err e, w) h y = undone e (rollback w) (rollback-RolledBack d c w h)

  in_tx-Atomic :
      (w : World)
      → w.db ≡ d
      → Inside d c w
      → Ended (with_rollback (create_in_tx env (request_hash env input) input) w)
  unfolding with_rollback create_in_tx ◌>>=◌
  in_tx-Atomic w e h =
      claimed-Atomic
        (claim_idempotency env input.user_id input.idempotency_key (request_hash env input) w)
        ((claim_idempotency-Inside d c env _ _ _).at w h)
        (subst
          (λ x.
            Yields (Claims env input.user_id input.idempotency_key (request_hash env input) x) (
              claim_idempotency env input.user_id input.idempotency_key (request_hash env input) w))
          e
          (claim_idempotency-Yields env input.user_id input.idempotency_key (request_hash env input)
            w))

-- When no transaction is open and every transaction balances, createBalanced under any faults
-- changes no table and no cache entry, or answers so from what an earlier request stored under
-- the key, or commits the whole transaction with its postings, event and stored response,
-- balanced; only then can the reply to COMMIT be lost.
pub create_balanced-Atomic :
    (env : Env) (input : BalancedInput) (w : World)
    → IsReady w
    → Atomic w.db w.cache
        (Replays env input w.db)
        (Created env input w.db)
        (create_balanced env input w)
unfolding create_balanced
create_balanced-Atomic env input w ready =
    elim (Option-cases (validate_legs input.legs input.use_external_leg)) [
      | inl valid ↦ rw valid (
          begin-Atomic (Replays env input w.db) (Created env input w.db) _ w ready
            λ w' e h. in_tx-Atomic env input w.db w.cache w' e h)
      | inr (e, invalid) ↦
          rw invalid (undone e w (record { db_is = refl; cache_is = refl; closed = ready.idle }))
    ]
