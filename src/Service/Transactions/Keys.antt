-- ===== src/Service/Transactions/Keys.antt =====
-- The row under an idempotency key, through the claim and the success mark.
use ledger_x.Prelude.{
  ◌∙◌, ◌≡◌, ◌∷◌, ◌++◌, ℕ, true, str_eq, some, refl, inr, inl, false, eq_refl, ap, [], String, List,
  Bool-cases, ==_refl,
}
use ledger_x.Repo.Models.{IdempotencyKey}
use ledger_x.Prelude.Select.{find_row-append_right, exists_row}
use ledger_x.Repo.Idempotency.{succeed, is_key, find_key}
use ledger_x.Repo.Rows.{marked}

module _ (uid : ℕ) (k : String) where
  -- Marking a success changes no key.
  is_key-succeed :
      (json : String) (r : IdempotencyKey) → is_key uid k (succeed json r) ≡ is_key uid k r
  is_key-succeed json r = refl

  fresh_key :
      (rows : List IdempotencyKey) (row : IdempotencyKey)
      → exists_row (is_key uid k) rows ≡ false
      → is_key uid k row ≡ true
      → find_key uid k (rows ++ row ∷ []) ≡ some row
  fresh_key rows row h e = find_row-append_right (is_key uid k) rows (row ∷ []) h ∙ rw e refl

  -- What is found under the key after the mark, when it carries the hash.
  find_key-marked :
      (hash json : String) (rows : List IdempotencyKey) (row : IdempotencyKey)
      → find_key uid k rows ≡ some row
      → str_eq row.request_hash hash ≡ true
      → find_key uid k (marked uid k hash json rows) ≡ some (succeed json row)
  find_key-marked hash json [] row f e = cc
  find_key-marked hash json (r ∷ rows) row f e = elim (Bool-cases (is_key uid k r)) [
    | inl it ↦
        let found_it : some r ≡ some row = rw it at f in
        let same : r ≡ row = cc in
        let same_hash : str_eq r.request_hash hash ≡ true = rw same e in
        rw (it, same_hash) (rw it (ap (λ x. some (succeed json x)) same))
    | inr other ↦ rw other (rw other (find_key-marked hash json rows row (rw other at f) e))
  ]

  pub find_key-claimed :
      (hash json : String) (rows : List IdempotencyKey) (row : IdempotencyKey)
      → exists_row (is_key uid k) rows ≡ false
      → row.user_id ≡ uid
      → row.key ≡ k
      → row.request_hash ≡ hash
      → find_key uid k (marked uid k hash json (rows ++ row ∷ [])) ≡ some (succeed json row)
  find_key-claimed hash json rows row h u e f =
      find_key-marked hash json (rows ++ row ∷ []) row
        (fresh_key rows row h (rw (u, e, ==_refl uid, eq_refl k) refl)) (rw (f, eq_refl hash) refl)
