-- ===== src/Service/Transactions/NegatedSum.antt =====
-- The negated postings of a balanced transaction sum to zero.
use ledger_x.Prelude.Int.{◌-ℤ◌, ◌+ℤ◌, ℤ, pos_part, pos, neg_part, int_laws, +ℤ-zero}
use ledger_x.Prelude.{
  ◌≡◌, ◌∷◌, ◌∙◌, ◌==◌, ℕ, true, sym, refl, map, ltb, inr, inl, if◌then◌else◌, false, ap, [], List,
  Bool-cases, Bool, All,
}
use ledger_x.Repo.Commit.{IsBalanced}
use ledger_x.Service.Transactions.Reversals.{Negatable}
use ledger_x.Repo.Models.{Posting}
use ledger_x.Service.Transactions.Validated.{exact_sum}
use ledger_x.Prelude.Select.{where_rows, order_by, insert_row}
use ledger_x.Int64.{neg64_lem}
use ledger_x.Service.Transactions.Reverse.{negated}
use ledger_x.Prelude.Kept.{where_rows_pass, where_rows-All, order_by-All}
use ledger_x.Repo.Transactions.{postings_of}
use ledger_x.Repo.Tx.{tx_sum}

-- The sum of some postings does not depend on their order.
sum_all-insert_row :
    (t : ℕ) (before : Posting → Posting → Bool) (p : Posting) (ps : List Posting)
    → tx_sum t (insert_row before p ps) ≡ tx_sum t (p ∷ ps)
sum_all-insert_row t before p [] = refl
sum_all-insert_row t before p (q ∷ ps) = elim (Bool-cases (before q p)) [
  | inr first ↦ rw first refl
  | inl after ↦
      let ih = sum_all-insert_row t before p ps in
      rw (after, ih)
        (swapped (q.transaction_id == t) (p.transaction_id == t) q.amount_minor p.amount_minor
          (tx_sum t ps))
]
  where
    swapped :
        (b c : Bool) (x y s : ℤ)
        → (if b then x +ℤ (if c then y +ℤ s else s) else (if c then y +ℤ s else s))
          ≡ (if c then y +ℤ (if b then x +ℤ s else s) else (if b then x +ℤ s else s))
    swapped true true x y s = omega int_laws
    swapped true false x y s = refl
    swapped false true x y s = refl
    swapped false false x y s = refl

tx_sum-order_by :
    (t : ℕ) (before : Posting → Posting → Bool) (ps : List Posting)
    → tx_sum t (order_by before ps) ≡ tx_sum t ps
tx_sum-order_by t before [] = refl
tx_sum-order_by t before (p ∷ ps) =
    sum_all-insert_row t before p (order_by before ps) ∙ rw (tx_sum-order_by t before ps) refl

tx_sum-where_rows :
    (t : ℕ) (ps : List Posting)
    → tx_sum t (where_rows (λ (p : Posting). p.transaction_id == t) ps) ≡ tx_sum t ps
tx_sum-where_rows t [] = refl
tx_sum-where_rows t (p ∷ ps) = elim (Bool-cases (p.transaction_id == t)) [
  | inl mine ↦ rw mine (rw (mine, tx_sum-where_rows t ps) refl)
  | inr other ↦ rw other (tx_sum-where_rows t ps)
]

-- Negated postings of one transaction have the negative of its sum.
exact_sum-negated :
    (t : ℕ) (ps : List Posting)
    → All Negatable ps
    → All (λ (p : Posting). (p.transaction_id == t) ≡ true) ps
    → exact_sum (map negated ps) +ℤ tx_sum t ps ≡ pos 0
exact_sum-negated t [] h k = omega int_laws
exact_sum-negated t (p ∷ ps) h k =
    let ih = exact_sum-negated t ps h.1 k.1 in
    rw (k.0, neg64_lem p.amount_minor h.0.0 h.0.1)
      (one_more p.amount_minor (exact_sum (map negated ps)) (tx_sum t ps) ih)
  where
    one_more : (x s u : ℤ) → s +ℤ u ≡ pos 0 → pos 0 -ℤ x +ℤ s +ℤ (x +ℤ u) ≡ pos 0
    one_more x s u e =
        let up : pos_part (s +ℤ u) ≡ 0 = ap pos_part e in
        let down : neg_part (s +ℤ u) ≡ 0 = ap neg_part e in omega int_laws

pub negated_zero :
    (t : ℕ) (ps : List Posting)
    → IsBalanced ps
    → All Negatable ps
    → exact_sum (map negated (postings_of t ps)) ≡ pos 0
negated_zero t ps balanced h =
    let test : Posting → Bool = λ p. p.transaction_id == t in
    let before : Posting → Posting → Bool = λ p q. ltb p.id q.id in
    let total : tx_sum t (postings_of t ps) ≡ pos 0 =
      tx_sum-order_by t before (where_rows test ps) ∙ (tx_sum-where_rows t ps ∙ balanced t) in
    let both : exact_sum (map negated (postings_of t ps)) +ℤ tx_sum t (postings_of t ps) ≡ pos 0 =
      exact_sum-negated t (postings_of t ps)
        (order_by-All Negatable before _ (where_rows-All Negatable test ps h))
        (order_by-All (λ p. test p ≡ true) before _ (where_rows_pass test ps)) in
    sym (+ℤ-zero _) ∙ (rw total at both)
