-- ===== src/Service/Transactions/ReversalSucceeds.antt =====
-- The steps of a reversal succeed.
use ledger_x.Prelude.{
  ap, ==_refl, ◌≡◌, ◌∷◌, ◌∙◌, ◌==◌, ◌&&◌, ℕ, true, some, refl, none, map, false, arith, [], String,
  List, All,
}
use ledger_x.Service.Transactions.Accepted.{
  write_postings-Completes, remember-Completes, publish-Completes, invalidate-Succeeds, EncodesAt,
  IsFresh, CanPost,
}
use ledger_x.Repo.Success.{
  weaken-Succeeds, create_transaction_header-Completes, Succeeds, raise_if-Succeeds,
  list_postings_by_transaction-Completes, get_transaction_for_user-Succeeds, ensure, bind-Succeeds,
  attempt-Succeeds, Succeeds-ok, Completes,
}
use ledger_x.Repo.Models.{Transaction, Posting, IdempotencyKey, Database}
use ledger_x.Service.Types.{from_db, ReverseInput, Env}
use ledger_x.Service.Transactions.Effects.{neg64_nonzero, IsMovable}
use ledger_x.Repo.World.{found, World}
use ledger_x.Repo.Transactions.{
  list_postings_by_transaction, get_transaction_for_user, transaction_exists, reversal_taken,
  postings_of, find_owned_transaction, account_exists,
}
use ledger_x.Prelude.Select.{exists_row_last, exists_row_found, exists_row}
use ledger_x.Service.Transactions.Once.{find_owned_id}
use ledger_x.Service.Transactions.Reverse.{invalidate_postings, record_reversal, negated, is_empty}
use ledger_x.Repo.Rows.{create_transaction_header-Yields, list_postings_by_transaction-Yields}
use ledger_x.Transport.Listing.{listed}
use ledger_x.Repo.Accounts.{user_exists}
use ledger_x.Service.Transactions.ReversalRecorded.{reversal_params}
use ledger_x.Service.Samples.{header}
use ledger_x.Prelude.Kept.{where_rows-All, order_by-All}
use ledger_x.Storage.{s3}
use ledger_x.Service.Transactions.Clock.{
  list_postings_by_transaction-At, kept-Succeeds, get_transaction_for_user-At, At,
}
use ledger_x.Repo.Keeps.{Keeps-raise_if}

-- A posting as the constraints of the table leave it, with an amount that has a negative.
abbrev pub IsPostable : Database → Posting → Type 0
IsPostable d p = IsMovable p.amount_minor × (account_exists d p.account_id ≡ true)

-- `orig` is the user's, reverses nothing, has postings, and is not reversed.
pub record Reversible (input : ReverseInput) (d : Database) (orig : Transaction) : Type 0 where
  pub known : find_owned_transaction input.transaction_id input.user_id d ≡ some orig
  pub plain : orig.reversal_of ≡ none
  pub posted : is_empty (postings_of orig.id d.postings) ≡ false
  pub first : reversal_taken (some orig.id) d.transactions ≡ false
  pub user : user_exists d input.user_id ≡ true
  pub fresh : IsFresh input.user_id input.idempotency_key d
  pub postable : All (IsPostable d) d.postings

exists_by_id :
    (id uid : ℕ) (ts : List Transaction)
    → exists_row (λ (t : Transaction). t.id == id && t.user_id == uid) ts ≡ true
    → transaction_exists id ts ≡ true
exists_by_id id uid [] h = cc
exists_by_id id uid (t ∷ ts) h = ground (arith, exists_by_id id uid ts)

orig_known :
    (input : ReverseInput) (d : Database) (orig : Transaction)
    → find_owned_transaction input.transaction_id input.user_id d ≡ some orig
    → transaction_exists orig.id d.transactions ≡ true
orig_known input d orig h = rw (find_owned_id input.transaction_id input.user_id d orig h) (
    exists_by_id input.transaction_id input.user_id d.transactions
      (exists_row_found _ d.transactions orig h))

pub Reversible-later :
    (input : ReverseInput) (d d' : Database) (orig : Transaction) (keys : List IdempotencyKey)
    → d' ≡ record d { idempotency_keys = keys }
    → Reversible input d orig
    → (find_owned_transaction input.transaction_id input.user_id d' ≡ some orig)
      × ((is_empty (postings_of orig.id d'.postings) ≡ false)
          × ((reversal_taken (some orig.id) d'.transactions ≡ false)
              × ((user_exists d' input.user_id ≡ true) × All (IsPostable d') d'.postings)))
Reversible-later input d d' orig keys e r =
    rw e (r.known, (r.posted, (r.first, (r.user, r.postable))))

CanPost-negated :
    (t : ℕ) (d : Database) (ps : List Posting)
    → All (IsPostable d) ps
    → All (CanPost t d) (map negated ps)
CanPost-negated t d [] h = tt
CanPost-negated t d (p ∷ ps) h =
    ((neg64_nonzero p.amount_minor h.0.0, h.0.1), CanPost-negated t d ps h.1)

module _ (env : Env) (n : ℕ) (m : EncodesAt env env.go_now n) (hash : String) (input : ReverseInput)
    (orig : Transaction) where
  pub record_reversal-Completes :
      (w : World)
      → w.faults ≡ []
      → At n w
      → find_owned_transaction input.transaction_id input.user_id w.db ≡ some orig
      → orig.reversal_of ≡ none
      → is_empty (postings_of orig.id w.db.postings) ≡ false
      → reversal_taken (some orig.id) w.db.transactions ≡ false
      → user_exists w.db input.user_id ≡ true
      → All (IsPostable w.db) w.db.postings
      → Completes (record_reversal env hash input w)
  unfolding record_reversal found
  record_reversal-Completes w h start known plain posted first user postable =
      bind-Succeeds _ _ _ w
        (attempt-Succeeds _ w (
          kept-Succeeds (get_transaction_for_user input.transaction_id input.user_id) w
            (get_transaction_for_user-Succeeds w h input.transaction_id input.user_id orig known)
            (get_transaction_for_user-At n input.transaction_id input.user_id) start))
        λ r w1 h1 (t, (e, ((is, same1), at1))).
          rw (e, is)
            (bind-Succeeds (λ a v. (a ≡ orig) × ((v.db ≡ w.db) × At n v)) _ _ w1
              (Succeeds-ok orig w1 h1 (refl, (same1, at1)))
              λ o w2 h2 (it, (same2, at2)). rw it (
                bind-Succeeds _ _ _ w2
                  (kept-Succeeds {P = At n} _ w2 (raise_if-Succeeds _ _ w2 (rw plain refl) h2)
                    (Keeps-raise_if _ _) at2)
                  λ _ w3 h3 (s3, at3).
                    bind-Succeeds _ _ _ w3
                      (kept-Succeeds (list_postings_by_transaction orig.id) w3
                        (ensure _ (list_postings_by_transaction-Completes w3 h3 orig.id)
                          (list_postings_by_transaction-Yields orig.id w3))
                        (list_postings_by_transaction-At n orig.id) at3)
                      λ ps w4 h4 ((listed, s4), at4).
                        let same4 : w4.db ≡ w.db = s4 ∙ (s3 ∙ same2) in
                        let ps_are : ps ≡ postings_of orig.id w.db.postings =
                          listed ∙ rw (s3, same2) refl in
                        bind-Succeeds _ _ _ w4
                          (kept-Succeeds {P = At n} _ w4
                            (raise_if-Succeeds _ _ w4 (rw ps_are posted) h4) (Keeps-raise_if _ _)
                            at4)
                          λ _ w5 h5 (s5, at5).
                            let same5 : w5.db ≡ w.db = s5 ∙ same4 in
                            bind-Succeeds _ _ _ w5
                              (attempt-Succeeds _ w5 (
                                ensure _
                                  (create_transaction_header-Completes w5 h5
                                    (reversal_params env input orig) (rw same5 first)
                                    (rw same5 user) (rw same5 (orig_known input w.db orig known)))
                                  (create_transaction_header-Yields (reversal_params env input orig)
                                    w5)))
                              λ res w6 h6 (header, (created, a)).
                                let occurred = ap (from_db env) a.occurred_at in
                                let begun = ap (from_db env) (a.created_at ∙ at5.now_is) in
                                rw created (
                                  bind-Succeeds (λ x v. (x ≡ header) × (v.db ≡ w6.db)) _ _ w6
                                    (Succeeds-ok header w6 h6 (refl, refl))
                                    λ x w7 h7 (same_header, same7). rw same_header (
                                      let there : transaction_exists header.id w7.db.transactions
                                          ≡ true =
                                        rw (same7, a.added)
                                          (exists_row_last _ w5.db.transactions header
                                            (==_refl header.id)) in
                                      let can : All (CanPost header.id w7.db) (map negated ps) =
                                        rw (same7, a.added, same5, ps_are)
                                          (CanPost-negated header.id w.db
                                            (postings_of orig.id w.db.postings)
                                            (order_by-All (IsPostable w.db) _ _ (
                                              where_rows-All (IsPostable w.db) _ w.db.postings
                                                postable))) in
                                      bind-Succeeds _ _ _ w7
                                        (write_postings-Completes header.id (map negated ps) w7 h7
                                          there can)
                                        λ dtos w8 h8 _.
                                          bind-Succeeds _ _ _ w8
                                            (publish-Completes env _ _ _ w8 (m.1 _ occurred).1 h8)
                                            λ _ w9 h9 _.
                                              bind-Succeeds _ _ _ w9
                                                (remember-Completes env _ _ hash _ _ w9
                                                  (m.0 _ occurred begun).1 h9)
                                                λ _ w10 h10 _. Succeeds-ok _ w10 h10 tt))))

pub invalidate_postings-Succeeds :
    (month now_month : ℕ) (ps : List Posting) (w : World)
    → w.faults ≡ []
    → Succeeds
        (λ _ w'. (w'.db ≡ w.db) × (w'.saved ≡ w.saved))
        (invalidate_postings month now_month ps w)
unfolding invalidate_postings
invalidate_postings-Succeeds month now_month [] w h = Succeeds-ok tt w h (refl, refl)
invalidate_postings-Succeeds month now_month (p ∷ ps) w h =
    bind-Succeeds _ _ _ w (invalidate-Succeeds p.account_id month w h) λ _ w1 h1 (d1, s1).
      bind-Succeeds _ _ _ w1 (invalidate-Succeeds p.account_id now_month w1 h1) λ _ w2 h2 (d2, s2).
        weaken-Succeeds _ _ (invalidate_postings-Succeeds month now_month ps w2 h2)
          λ _ w3 (d3, s3). (d3 ∙ (d2 ∙ d1), s3 ∙ (s2 ∙ s1))
