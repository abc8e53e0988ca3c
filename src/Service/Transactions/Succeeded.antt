-- ===== src/Service/Transactions/Succeeded.antt =====
-- An accepted request is committed when nothing fails.
use mathlib.Core.Path.{subst}
use ledger_x.Prelude.{
  sym, some, ap, ◌≡◌, ◌∷◌, ◌∙◌, ◌==◌, ◌++◌, ℕ, true, refl, none, map, inr, inl, if◌then◌else◌,
  false, [], String, List, Bool-cases, Bool, All, ==_refl,
}
use ledger_x.Service.Transactions.Accepted.{
  EncodesAt, with_offset, claim_idempotency-Succeeds, as_given, write_postings-Completes,
  resolve_legs-Succeeds, remember-Completes, publish-Completes, invalidate-Succeeds,
  check_legs-Succeeds, Resolves, EncodesAt, IsNonzero, CanPost, Acceptable,
}
use ledger_x.Service.Types.{from_db, TransactionDto, Leg, Env, BalancedInput}
use ledger_x.Service.Transactions.Claimed.{claim_idempotency-Yields, Claimed}
use ledger_x.Repo.Success.{
  commit-Succeeds, both-Succeeds, weaken-Succeeds, ensure, create_transaction_header-Completes,
  bind-Succeeds, Succeeds-ok, Succeeds,
}
use ledger_x.Service.Transactions.AllOrNothing.{Created}
use ledger_x.Repo.Models.{Posting, Database}
use ledger_x.Repo.Rows.{create_transaction_header-Yields, HeaderAdded}
use ledger_x.Repo.Commit.{rollback_closed, IsBalanced}
use ledger_x.Service.Transactions.Permitted.{Permitted}
use ledger_x.Repo.World.{◌>>=◌, ok, err, Result, World}
use ledger_x.Service.Samples.{user}
use ledger_x.Service.Transactions.Create.{
  create_in_tx, create_balanced, request_hash, record_transaction, invalidate_legs,
  create_unless_cached,
}
use ledger_x.Service.Transactions.Validated.{exact_sum}
use ledger_x.Prelude.Select.{sum_where-append, exists_row_last, exists_row_found}
use ledger_x.Service.Transactions.Recorded.{
  record_transaction-Yields, Permitted-later, header_params,
}
use ledger_x.Service.Transactions.Written.{leg_of}
use ledger_x.Prelude.Int.{◌+ℤ◌, zero-+ℤ, pos}
use ledger_x.Repo.Transactions.{transaction_exists}
use ledger_x.Repo.Tx.{with_rollback, rollback, begin_after, begin, tx_sum}
use ledger_x.Repo.Accounts.{user_exists}
use ledger_x.Repo.Atomic.{IsReady}
use ledger_x.Service.Transactions.Clock.{
  resolve_legs-At, kept-Succeeds, claim_idempotency-At, check_legs-At, At,
}
use ledger_x.Service.Transactions.Legs.{resolve_legs, check_legs}
use ledger_x.Service.Transactions.Claim.{claim_idempotency}
use ledger_x.Storage.{s3}

can_post :
    (t : ℕ) (d : Database) (uid : ℕ) (currency : String) (legs : List Leg)
    → All (Permitted d uid currency) legs
    → All IsNonzero legs
    → All (CanPost t d) legs
can_post t d uid currency [] p n = tt
can_post t d uid currency (l ∷ legs) (p, ps) (n, ns) =
    ((n, exists_row_found _ d.accounts p.account p.known), can_post t d uid currency legs ps ns)

module _ (env : Env) (input : BalancedInput) (n : ℕ)
    (m : EncodesAt env input.occurred_at.instant n) where
  record_transaction-Succeeds :
      (hash : String) (legs : List Leg) (w : World)
      → w.faults ≡ []
      → At n w
      → Resolves input w.db legs
      → All (Permitted w.db input.user_id input.currency) legs
      → All IsNonzero legs
      → user_exists w.db input.user_id ≡ true
      → Succeeds (λ r _. r.1 ≡ legs) (record_transaction env hash input w)
  unfolding record_transaction
  record_transaction-Succeeds hash legs w h start resolved permitted nonzero user =
      bind-Succeeds _ _ _ w
        (kept-Succeeds (resolve_legs input) w (resolve_legs-Succeeds input legs w h resolved)
          (resolve_legs-At n input) start)
        λ ls w1 h1 ((e, same1), at1). rw e (
          bind-Succeeds _ _ _ w1
            (kept-Succeeds (check_legs input.user_id input.currency legs) w1
              (check_legs-Succeeds input.user_id input.currency legs w1 h1 (rw same1 permitted))
              (check_legs-At n input.user_id input.currency legs) at1)
            λ _ w2 h2 (same2, at2).
              let same : w2.db ≡ w.db = same2 ∙ same1 in
              bind-Succeeds (HeaderAdded (header_params env input) w2.db w2.now) _ _ w2
                (ensure _
                  (create_transaction_header-Completes w2 h2 (header_params env input) refl
                    (rw same user) refl)
                  (create_transaction_header-Yields (header_params env input) w2))
                λ header w3 h3 a.
                  let occurred = ap (from_db env) a.occurred_at in
                  let created = ap (from_db env) (a.created_at ∙ at2.now_is) in
                  let there : transaction_exists header.id w3.db.transactions ≡ true =
                    rw a.added (exists_row_last _ w2.db.transactions header (==_refl header.id)) in
                  let can : All (CanPost header.id w3.db) legs =
                    rw (a.added, same)
                      (can_post header.id w.db input.user_id input.currency legs permitted
                        nonzero) in
                  bind-Succeeds _ _ _ w3 (write_postings-Completes header.id legs w3 h3 there can)
                    λ dtos w4 h4 _.
                      bind-Succeeds _ _ _ w4 (publish-Completes env _ _ _ w4 (m.1 _ occurred).1 h4)
                        λ _ w5 h5 _.
                          bind-Succeeds _ _ _ w5
                            (remember-Completes env _ _ hash _ _ w5 (m.0 _ occurred created).1 h5)
                            λ _ w6 h6 _. Succeeds-ok _ w6 h6 refl)

-- Best effort that has nothing to fail at.
invalidate_legs-Succeeds :
    (month : ℕ) (legs : List Leg) (w : World)
    → w.faults ≡ []
    → Succeeds (λ _ w'. (w'.db ≡ w.db) × (w'.saved ≡ w.saved)) (invalidate_legs month legs w)
unfolding invalidate_legs
invalidate_legs-Succeeds month [] w h = Succeeds-ok tt w h (refl, refl)
invalidate_legs-Succeeds month (l ∷ legs) w h =
    bind-Succeeds _ _ _ w (invalidate-Succeeds l.account_id month w h) λ _ w1 h1 (d1, s1).
      weaken-Succeeds _ _ (invalidate_legs-Succeeds month legs w1 h1)
        λ _ w2 (d2, s2). (d2 ∙ d1, s2 ∙ s1)

-- The postings of one new transaction, by transaction.
tx_sum-own :
    (t u : ℕ) (rows : List Posting)
    → All (λ p. p.transaction_id ≡ t) rows
    → tx_sum u rows ≡ (if t == u then exact_sum (map leg_of rows) else pos 0)
tx_sum-own t u [] h = if_same (t == u)
  where
    if_same : (b : Bool) → pos 0 ≡ (if b then pos 0 else pos 0)
    if_same true = refl
    if_same false = refl
tx_sum-own t u (p ∷ rows) (own, rest) = elim (Bool-cases (t == u)) [
  | inl same ↦ let ih = tx_sum-own t u rows rest in rw (own, same, ih) (rw same refl)
  | inr other ↦ let ih = tx_sum-own t u rows rest in rw (own, other, ih) (rw other refl)
]

-- Postings that sum to zero, all of one transaction, keep the ledger balanced.
pub IsBalanced-append :
    (t : ℕ) (ps rows : List Posting)
    → IsBalanced ps
    → All (λ p. p.transaction_id ≡ t) rows
    → exact_sum (map leg_of rows) ≡ pos 0
    → IsBalanced (ps ++ rows)
IsBalanced-append t ps rows h own zero_sum u =
    rw (sum_where-append, h u, tx_sum-own t u rows own, zero_sum) (both (t == u))
  where
    both : (b : Bool) → pos 0 +ℤ (if b then pos 0 else pos 0) ≡ pos 0
    both true = zero-+ℤ (pos 0)
    both false = zero-+ℤ (pos 0)

-- What the legs resolve to depends on the accounts alone.
Resolves-later :
    (input : BalancedInput) (d d' : Database) (legs : List Leg)
    → d'.accounts ≡ d.accounts
    → Resolves input d legs
    → Resolves input d' legs
Resolves-later input d d' legs same (as_given plain e) = as_given plain e
Resolves-later input d d' legs same (with_offset ext offsets known e) =
    with_offset ext offsets (rw same known) e

module _ (env : Env) (input : BalancedInput) (legs : List Leg) (n : ℕ)
    (m : EncodesAt env input.occurred_at.instant n) where
  abbrev Effect : Database → TransactionDto → World → Type 0
  Effect d dto w =
      (h : Created env input d dto w.db) × ((h.recorded.legs ≡ legs) × (w.saved ≡ none))

  create_unless_cached-Succeeds :
      (d : Database) (w : World)
      → w.faults ≡ []
      → At n w
      → Claimed input.user_id input.idempotency_key (request_hash env input) d w.db
      → IsBalanced d.postings
      → Acceptable input d legs
      → Succeeds (Effect d) (create_unless_cached env (request_hash env input) input none w)
  unfolding create_unless_cached
  create_unless_cached-Succeeds d w h start claimed balanced accept =
      let accounts : w.db.accounts ≡ d.accounts = ap (λ x. x.accounts) claimed.claimed in
      let users : w.db.users ≡ d.users = ap (λ x. x.users) claimed.claimed in
      let postings : w.db.postings ≡ d.postings = ap (λ x. x.postings) claimed.claimed in
      bind-Succeeds _ _ _ w
        (both-Succeeds _ _
          (record_transaction-Succeeds env input n m (request_hash env input) legs w h start
            (Resolves-later input d w.db legs accounts accept.resolved)
            (Permitted-later d w.db _ _ legs accounts accept.permitted) accept.nonzero
            (rw users accept.user))
          (record_transaction-Yields env (request_hash env input) input w))
        λ written w1 h1 (e, (r, l)).
          let legs_are : map leg_of r.rows ≡ legs = r.rows_legs ∙ (l ∙ e) in
          let posted : w1.db.postings ≡ d.postings ++ r.rows = r.rows_added ∙ rw postings refl in
          let after : IsBalanced w1.db.postings = rw posted (
            IsBalanced-append r.header.id d.postings r.rows balanced r.rows_own
              (rw legs_are accept.balanced)) in
          bind-Succeeds _ _ _ w1 (commit-Succeeds w1 h1 after) λ _ w2 h2 (d2, s2).
            bind-Succeeds _ _ _ w2 (invalidate_legs-Succeeds _ written.1 w2 h2) λ _ w3 h3 (d3, s3).
              let (created, e3) =
                subst (λ x. (k : Created env input d written.0 x) × (k.recorded.legs ≡ legs))
                  (sym (d3 ∙ d2))
                  (record { between = w.db; claimed = claimed; recorded = r }, l ∙ e) in
              Succeeds-ok written.0 w3 h3 (created, (e3, s3 ∙ s2))

  create_in_tx-Succeeds :
      (d : Database) (w : World)
      → w.faults ≡ []
      → At n w
      → w.db ≡ d
      → IsBalanced d.postings
      → Acceptable input d legs
      → Succeeds (Effect d) (create_in_tx env (request_hash env input) input w)
  unfolding create_in_tx
  create_in_tx-Succeeds d w h start same balanced accept =
      bind-Succeeds _ _ _ w
        (both-Succeeds _ _
          (kept-Succeeds
            (claim_idempotency env input.user_id input.idempotency_key (request_hash env input)) w
            (claim_idempotency-Succeeds env input.user_id input.idempotency_key
              (request_hash env input) w h (rw same accept.fresh) (rw same accept.user))
            (claim_idempotency-At n env input.user_id input.idempotency_key
              (request_hash env input))
            start)
          (claim_idempotency-Yields env input.user_id input.idempotency_key (request_hash env input)
            w))
        λ cached w1 h1 ((fresh, at1), claims).
          let claimed : Claimed input.user_id input.idempotency_key (request_hash env input) d
              w1.db =
            subst
              (λ x. Claimed input.user_id input.idempotency_key (request_hash env input) x w1.db)
              same (rw fresh at claims) in
          rw fresh (create_unless_cached-Succeeds d w1 h1 at1 claimed balanced accept)

  rolled_back-Succeeds :
      (d : Database) (r : Result TransactionDto × World)
      → Succeeds (Effect d) r
      → Succeeds (Effect d) (r.0, rollback r.1)
  rolled_back-Succeeds d (ok dto, w) h = rw (rollback_closed w h.at.1.1.1) h
  rolled_back-Succeeds d (err e, w) h = absurd h.at

  pub create_balanced-Succeeds :
      (w : World)
      → w.faults ≡ []
      → w.now ≡ n
      → IsReady w
      → Acceptable input w.db legs
      → Succeeds (Effect w.db) (create_balanced env input w)
  unfolding create_balanced begin begin_after with_rollback ◌>>=◌
  create_balanced-Succeeds w h same_now ready accept =
      rw (accept.valid, h)
        (rolled_back-Succeeds w.db _ (
          create_in_tx-Succeeds w.db (record w { faults = []; saved = some w.db; deferred = [] })
            refl (record { now_is = same_now }) refl ready.balanced accept))
