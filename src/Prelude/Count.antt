-- ===== src/Prelude/Count.antt =====
-- How many rows pass a test, through the steps of a SELECT and an UPDATE.
use ledger_x.Prelude.Tests.{Bool-cases}
use ledger_x.Prelude.{
  ◌⊎◌, ◌≤◌, ◌≡◌, ◌∷◌, ◌∙◌, ◌+◌, ℕ, zero, true, take, suc, refl, inr, inl, if◌then◌else◌, false,
  arith, ap, [], List, Bool,
}
use ledger_x.Prelude.Select.{where_rows, update_rows, order_by, insert_row}

module _ {ℓ} {A : Type ℓ} where
  abbrev pub count : (A → Bool) → List A → ℕ
  count p [] = 0
  count p (x ∷ xs) = if p x then suc (count p xs) else count p xs

  count-insert_row :
      (p : A → Bool) (before : A → A → Bool) (x : A) (xs : List A)
      → count p (insert_row before x xs) ≡ count p (x ∷ xs)
  count-insert_row p before x [] = refl
  count-insert_row p before x (y ∷ ys) = elim (Bool-cases (before y x)) [
    | inr first ↦ rw first refl
    | inl later ↦ rw later (ground (arith, count-insert_row p before x ys))
  ]

  pub count-order_by :
      (p : A → Bool) (before : A → A → Bool) (xs : List A)
      → count p (order_by before xs) ≡ count p xs
  count-order_by p before [] = refl
  count-order_by p before (x ∷ xs) =
      count-insert_row p before x (order_by before xs) ∙ ground (arith, count-order_by p before xs)

  pub count-take : (p : A → Bool) (n : ℕ) (xs : List A) → count p (take n xs) ≤ count p xs
  count-take p zero xs = omega arith
  count-take p (suc n) [] = omega arith
  count-take p (suc n) (x ∷ xs) = ground (arith, count-take p n xs)

  -- All rows pass.
  abbrev pub any_row : A → Bool
  any_row x = true

  pub count-take_any :
      (n : ℕ) (xs : List A)
      → (count any_row (take n xs) ≡ n) ⊎ (count any_row (take n xs) ≡ count any_row xs)
  count-take_any zero xs = inl refl
  count-take_any (suc n) [] = inr refl
  count-take_any (suc n) (x ∷ xs) = ground (arith, count-take_any n xs)

  pub count_where : (p : A → Bool) (xs : List A) → count any_row (where_rows p xs) ≡ count p xs
  count_where p [] = refl
  count_where p (x ∷ xs) = elim (Bool-cases (p x)) [
    | inl passes ↦ rw passes (ap suc (count_where p xs))
    | inr fails ↦ rw fails (count_where p xs)
  ]

  -- Rows that an UPDATE stops from passing.
  pub count-update_rows :
      (p q : A → Bool) (f : A → A) (xs : List A)
      → ((x : A) → p (f x) ≡ false)
      → count p (update_rows q f xs) + count q (where_rows p xs) ≡ count p xs
  count-update_rows p q f [] h = refl
  count-update_rows p q f (x ∷ xs) h = elim (Bool-cases (p x)) [
    | inl passes ↦ elim (Bool-cases (q x)) [
      | inl hit ↦ rw passes (rw hit (rw (h x) (omega (arith, count-update_rows p q f xs h))))
      | inr missed ↦ rw passes (rw missed (rw passes (omega (arith, count-update_rows p q f xs h))))
    ]
    | inr fails ↦ elim (Bool-cases (q x)) [
      | inl hit ↦ rw fails (rw hit (rw (h x) (count-update_rows p q f xs h)))
      | inr missed ↦ rw fails (rw missed (rw fails (count-update_rows p q f xs h)))
    ]
  ]
