-- ===== src/Prelude/Kept.antt =====
-- What holds of every row holds of the rows that a SELECT picks and sorts.
use mathlib.Core.Path.{◌≡◌}
use mathlib.Core.Bool.{Bool, true}
use mathlib.Core.Logic.{inl, inr}
use mathlib.Core.Option.{some}
use mathlib.Core.List.{List, [], ◌∷◌}
use ledger_x.Prelude.Tests.{Bool-cases}
use ledger_x.Prelude.Lists.{All}
use ledger_x.Prelude.Select.{where_rows, order_by, insert_row, find_row, update_rows}

module _ {ℓ} {A : Type ℓ} (P : A → Type 0) where
  insert_row-All :
      (before : A → A → Bool) (x : A) (xs : List A)
      → P x
      → All P xs
      → All P (insert_row before x xs)
  insert_row-All before x [] h k = (h, tt)
  insert_row-All before x (y ∷ ys) h k = elim (Bool-cases (before y x)) [
    | inl after ↦ rw after (k.0, insert_row-All before x ys h k.1)
    | inr first ↦ rw first (h, k)
  ]

  pub order_by-All : (before : A → A → Bool) (xs : List A) → All P xs → All P (order_by before xs)
  order_by-All before [] h = tt
  order_by-All before (x ∷ xs) h =
      insert_row-All before x (order_by before xs) h.0 (order_by-All before xs h.1)

  pub where_rows-All : (test : A → Bool) (xs : List A) → All P xs → All P (where_rows test xs)
  where_rows-All test [] h = tt
  where_rows-All test (x ∷ xs) h = elim (Bool-cases (test x)) [
    | inl passes ↦ rw passes (h.0, where_rows-All test xs h.1)
    | inr fails ↦ rw fails (where_rows-All test xs h.1)
  ]

  pub find_row-All :
      (test : A → Bool) (xs : List A) (x : A) → All P xs → find_row test xs ≡ some x → P x
  find_row-All test [] x h e = cc
  find_row-All test (y ∷ xs) x h e = elim (Bool-cases (test y)) [
    | inl passes ↦ let same : y ≡ x = cc in rw (← same) h.0
    | inr fails ↦ find_row-All test xs x h.1 (rw fails at e)
  ]

  -- An UPDATE keeps what holds of every row when it keeps it on the rows that it changes.
  pub update_rows-All :
      (test : A → Bool) (f : A → A) (xs : List A)
      → ((x : A) → test x ≡ true → P x → P (f x))
      → All P xs
      → All P (update_rows test f xs)
  update_rows-All test f [] k h = tt
  update_rows-All test f (x ∷ xs) k h = elim (Bool-cases (test x)) [
    | inl passes ↦ rw passes (k x passes h.0, update_rows-All test f xs k h.1)
    | inr fails ↦ rw fails (h.0, update_rows-All test f xs k h.1)
  ]

  pub All-imp : (Q : A → Type 0) (xs : List A) → ((x : A) → P x → Q x) → All P xs → All Q xs
  All-imp Q [] k h = tt
  All-imp Q (x ∷ xs) k h = (k x h.0, All-imp Q xs k h.1)

pub where_rows_pass :
    {A : Type 0} (test : A → Bool) (xs : List A) → All (λ x. test x ≡ true) (where_rows test xs)
where_rows_pass test [] = tt
where_rows_pass test (x ∷ xs) = elim (Bool-cases (test x)) [
  | inl passes ↦ rw passes (passes, where_rows_pass test xs)
  | inr fails ↦ rw fails (where_rows_pass test xs)
]
