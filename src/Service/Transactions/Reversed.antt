-- ===== src/Service/Transactions/Reversed.antt =====
-- Reverse under every pattern of faults: what a committed reversal has written.
use mathlib.Core.Path.{subst}
use ledger_x.Repo.Outcome.{weaken-Yields, Yields}
use ledger_x.Prelude.{◌≡◌, some, none, Option, List}
use ledger_x.Repo.Atomic.{undone, replayed, write-Atomic, finally, begin-Atomic, IsReady, Atomic}
use ledger_x.Repo.World.{◌>>=◌, ok, err, continue, World, Result, CacheEntry}
use ledger_x.Service.Transactions.Claimed.{claim_idempotency-Yields, StoredReply, Claims, Claimed}
use ledger_x.Repo.Models.{Database}
use ledger_x.Service.Types.{TransactionDto, ReverseInput, Env}
use ledger_x.Repo.Inside.{Inside}
use ledger_x.Service.Summary.{cached}
use ledger_x.Service.Transactions.Claim.{claim_idempotency}
use ledger_x.Service.Transactions.Frame.{invalidate_postings-CacheOnly, claim_idempotency-Inside}
use ledger_x.Service.Transactions.Reverse.{
  reverse_unless_cached, reverse_in_tx, reverse_hash, reverse, record_reversal, invalidate_postings,
}
use ledger_x.Repo.Tx.{with_rollback, rollback}
use ledger_x.Repo.Commit.{rollback-RolledBack}
use ledger_x.Service.Transactions.ReversalRecorded.{
  record_reversal-Yields, record_reversal-Inside, ReversalRecorded,
}

-- The tables after a committed reversal: the key claimed, then the reversal recorded.
pub record Reversed (env : Env) (input : ReverseInput) (d : Database) (dto : TransactionDto)
    (d' : Database) : Type 0 where
  pub between : Database
  pub claimed : Claimed input.user_id input.idempotency_key (reverse_hash env input) d between
  pub recorded : ReversalRecorded env (reverse_hash env input) input between d' dto

abbrev pub ReverseReplays : Env → ReverseInput → Database → TransactionDto → Type 0
ReverseReplays env input d =
    StoredReply env input.user_id input.idempotency_key (reverse_hash env input) d

module _ (env : Env) (input : ReverseInput) (d : Database) (c : List CacheEntry) where
  abbrev Ended : Result TransactionDto × World → Type 0
  Ended = Atomic d c (ReverseReplays env input d) (Reversed env input d)

  after_claim-Atomic :
      (cached : Option TransactionDto) (w : World)
      → Inside d c w
      → Claims env input.user_id input.idempotency_key (reverse_hash env input) d cached w
      → Ended (finally (reverse_unless_cached env (reverse_hash env input) input cached w))
  unfolding reverse_unless_cached
  after_claim-Atomic (some dto) w h k = replayed dto (rollback w) k (rollback-RolledBack d c w h)
  after_claim-Atomic none w h k =
      write-Atomic d c (ReverseReplays env input d) (Reversed env input d)
        (λ written.
          invalidate_postings (env.civil_month (env.local_wall written.original.occurred_at))
            (env.civil_month env.go_now) written.postings)
        (λ written. written.dto) (λ written. invalidate_postings-CacheOnly _ _ written.postings)
        (record_reversal env (reverse_hash env input) input) w
        (record_reversal-Inside d c env _ input)
        (weaken-Yields _ _ (record_reversal-Yields env _ input w)
          λ written w' r. record { between = w.db; claimed = k; recorded = r })
        h

  claimed-Atomic :
      (r : Result (Option TransactionDto) × World)
      → Inside d c r.1
      → Yields (Claims env input.user_id input.idempotency_key (reverse_hash env input) d) r
      → Ended
          (finally (continue r.0 (reverse_unless_cached env (reverse_hash env input) input) r.1))
  claimed-Atomic (ok cached, w) h y = after_claim-Atomic cached w h y.at
  claimed-Atomic (err e, w) h y = undone e (rollback w) (rollback-RolledBack d c w h)

  in_tx-Atomic :
      (w : World)
      → w.db ≡ d
      → Inside d c w
      → Ended (with_rollback (reverse_in_tx env (reverse_hash env input) input) w)
  unfolding with_rollback reverse_in_tx ◌>>=◌
  in_tx-Atomic w e h =
      claimed-Atomic
        (claim_idempotency env input.user_id input.idempotency_key (reverse_hash env input) w)
        ((claim_idempotency-Inside d c env _ _ _).at w h)
        (subst
          (λ x.
            Yields (Claims env input.user_id input.idempotency_key (reverse_hash env input) x) (
              claim_idempotency env input.user_id input.idempotency_key (reverse_hash env input) w))
          e
          (claim_idempotency-Yields env input.user_id input.idempotency_key (reverse_hash env input)
            w))

-- When no transaction is open and every transaction balances, Reverse under any faults changes
-- no table and no cache entry, or answers so from what an earlier request stored under the key,
-- or commits the negated postings of one of the user's transactions that has postings, is no
-- reversal and had none; only then can the reply to COMMIT be lost.
pub reverse-Atomic :
    (env : Env) (input : ReverseInput) (w : World)
    → IsReady w
    → Atomic w.db w.cache
        (ReverseReplays env input w.db)
        (Reversed env input w.db)
        (reverse env input w)
unfolding reverse
reverse-Atomic env input w ready =
    begin-Atomic (ReverseReplays env input w.db) (Reversed env input w.db) _ w ready
      λ w' e h. in_tx-Atomic env input w.db w.cache w' e h
