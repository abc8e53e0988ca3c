-- ===== src/Prelude/Select.antt =====
-- The operations of a SELECT on a list of rows: WHERE, ORDER BY, the first row, sums.
use mathlib.Core.Path.{◌≡◌, refl, sym}
use mathlib.Core.Bool.{Bool, true, false}
use mathlib.Core.Logic.{inl, inr}
use mathlib.Core.Option.{Option, none, some}
use mathlib.Core.List.{List, [], ◌∷◌, ◌++◌}
use native.Mathlib.Omega.{arith}
use ledger_x.Prelude.Tests.{if◌then◌else◌, Bool-cases}
use ledger_x.Prelude.Int.{ℤ, pos, ◌+ℤ◌, +ℤ_assoc, int_laws}

module _ {ℓ} {A : Type ℓ} where
  -- WHERE p
  abbrev pub where_rows : (A → Bool) → List A → List A
  where_rows p [] = []
  where_rows p (x ∷ xs) = if p x then x ∷ where_rows p xs else where_rows p xs

  -- The first row that passes, as a `:one` query scans it.
  abbrev pub find_row : (A → Bool) → List A → Option A
  find_row p [] = none
  find_row p (x ∷ xs) = if p x then some x else find_row p xs

  abbrev pub exists_row : (A → Bool) → List A → Bool
  exists_row p [] = false
  exists_row p (x ∷ xs) = if p x then true else exists_row p xs

  -- UPDATE … WHERE p
  abbrev pub update_rows : (A → Bool) → (A → A) → List A → List A
  update_rows p f [] = []
  update_rows p f (x ∷ xs) = (if p x then f x else x) ∷ update_rows p f xs

  -- ORDER BY, with `before x y` where x sorts strictly before y.
  abbrev pub insert_row : (A → A → Bool) → A → List A → List A
  insert_row before x [] = x ∷ []
  insert_row before x (y ∷ ys) = if before y x then y ∷ insert_row before x ys else x ∷ y ∷ ys

  abbrev pub order_by : (A → A → Bool) → List A → List A
  order_by before [] = []
  order_by before (x ∷ xs) = insert_row before x (order_by before xs)

  -- SUM(f) over the rows that pass, 0 where there are none.
  abbrev pub sum_where : (A → Bool) → (A → ℤ) → List A → ℤ
  sum_where p f [] = pos 0
  sum_where p f (x ∷ xs) = if p x then f x +ℤ sum_where p f xs else sum_where p f xs

  pub find_row-append :
      (p : A → Bool) (xs ys : List A)
      → find_row p (xs ++ ys) ≡ elim (find_row p xs) [ none ↦ find_row p ys | some x ↦ some x ]
  find_row-append p [] ys = refl
  find_row-append p (x ∷ xs) ys = ground (arith, find_row-append p xs ys)

  pub find_row_holds : (p : A → Bool) (xs : List A) (x : A) → find_row p xs ≡ some x → p x ≡ true
  find_row_holds p [] x h = cc
  find_row_holds p (y ∷ xs) x h = ground (arith, find_row_holds p xs x)

  pub sum_where-append :
      (p : A → Bool) (f : A → ℤ) (xs ys : List A)
      → sum_where p f (xs ++ ys) ≡ sum_where p f xs +ℤ sum_where p f ys
  sum_where-append p f [] ys = omega int_laws
  sum_where-append p f (x ∷ xs) ys = elim (Bool-cases (p x)) [
    | inl e ↦ rw (e, sum_where-append p f xs ys) (sym (+ℤ_assoc (f x) _ _))
    | inr e ↦ rw e (sum_where-append p f xs ys)
  ]

  pub find_row-none : (p : A → Bool) (xs : List A) → exists_row p xs ≡ false → find_row p xs ≡ none
  find_row-none p [] h = refl
  find_row-none p (x ∷ xs) h = ground (arith, find_row-none p xs)

  pub exists_row_found :
      (p : A → Bool) (xs : List A) (x : A) → find_row p xs ≡ some x → exists_row p xs ≡ true
  exists_row_found p [] x h = cc
  exists_row_found p (y ∷ xs) x h = ground (arith, exists_row_found p xs x)

  pub find_row-append_left :
      (p : A → Bool) (xs ys : List A) (x : A)
      → find_row p xs ≡ some x
      → find_row p (xs ++ ys) ≡ some x
  find_row-append_left p [] ys x h = cc
  find_row-append_left p (y ∷ xs) ys x h = ground (arith, find_row-append_left p xs ys x)

  pub find_row-append_right :
      (p : A → Bool) (xs ys : List A)
      → exists_row p xs ≡ false
      → find_row p (xs ++ ys) ≡ find_row p ys
  find_row-append_right p [] ys h = refl
  find_row-append_right p (y ∷ xs) ys h = ground (arith, find_row-append_right p xs ys)

  pub exists_row-append :
      (p : A → Bool) (xs ys : List A)
      → exists_row p (xs ++ ys) ≡ (if exists_row p xs then true else exists_row p ys)
  exists_row-append p [] ys = refl
  exists_row-append p (x ∷ xs) ys = ground (arith, exists_row-append p xs ys)

  pub exists_row_last :
      (p : A → Bool) (xs : List A) (x : A) → p x ≡ true → exists_row p (xs ++ x ∷ []) ≡ true
  exists_row_last p [] x h = rw h refl
  exists_row_last p (y ∷ xs) x h = ground (arith, exists_row_last p xs x h)
