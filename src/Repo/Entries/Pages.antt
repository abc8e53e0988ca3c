-- ===== src/Repo/Entries/Pages.antt =====
-- The pages of an account's entries, joined.
use ledger_x.Prelude.{
  ◌≡◌, ◌∷◌, ℕ, zero, true, take, suc, some, refl, false, drop, arith, [], List, All,
}
use ledger_x.Repo.Entries.{last_row, is_before, cursor_of, EntryRow, Cursor}
use ledger_x.Prelude.Select.{where_rows}

-- Each row sorts strictly before all that follow: (occurred_at, id) falls.
abbrev pub IsFalling : List EntryRow → Type 0
IsFalling [] = Unit
IsFalling (e ∷ es) = All (λ f. is_before (cursor_of e) f ≡ true) es × IsFalling es

pub before_trans :
    (c : Cursor) (e f : EntryRow)
    → is_before c e ≡ true
    → is_before (cursor_of e) f ≡ true
    → is_before c f ≡ true
before_trans c e f h k = ground arith

where_rows_keep :
    (c : Cursor) (es : List EntryRow)
    → All (λ f. is_before c f ≡ true) es
    → where_rows (is_before c) es ≡ es
where_rows_keep c [] h = refl
where_rows_keep c (e ∷ es) h = rw (h.0, where_rows_keep c es h.1) refl

not_before_itself : (e : EntryRow) → is_before (cursor_of e) e ≡ false
not_before_itself e = ground arith

not_before_earlier :
    (e f : EntryRow) → is_before (cursor_of e) f ≡ true → is_before (cursor_of f) e ≡ false
not_before_earlier e f h = ground arith

pub last_row-All :
    (P : EntryRow → Type 0) (n : ℕ) (es : List EntryRow) (e : EntryRow)
    → All P es
    → last_row (take n es) ≡ some e
    → P e
last_row-All P zero es e h k = cc
last_row-All P (suc n) [] e h k = cc
last_row-All P (suc zero) (f ∷ es) e h k = let same : f ≡ e = cc in rw (← same) h.0
last_row-All P (suc (suc n)) (f ∷ []) e h k = let same : f ≡ e = cc in rw (← same) h.0
last_row-All P (suc (suc n)) (f ∷ g ∷ es) e h k = last_row-All P (suc n) (g ∷ es) e h.1 k

first_last :
    (f e : EntryRow) (es : List EntryRow)
    → IsFalling (f ∷ es)
    → f ≡ e
    → where_rows (is_before (cursor_of e)) (f ∷ es) ≡ es
first_last f e es h same =
    let self : is_before (cursor_of e) f ≡ false = rw (← same) (not_before_itself f) in
    let after : All (λ g. is_before (cursor_of e) g ≡ true) es = rw (← same) h.0 in
    rw self (where_rows_keep (cursor_of e) es after)

-- The next page, from the last row of a page of `n + 1` rows, is what that page left.
pub next_page :
    (n : ℕ) (es : List EntryRow) (e : EntryRow)
    → IsFalling es
    → last_row (take (suc n) es) ≡ some e
    → where_rows (is_before (cursor_of e)) es ≡ drop (suc n) es
next_page n [] e h k = cc
next_page zero (f ∷ es) e h k = first_last f e es h (some_row k)
  where
    some_row : {a b : EntryRow} → some a ≡ some b → a ≡ b
    some_row p = cc
next_page (suc n) (f ∷ []) e h k = first_last f e [] h (some_row k)
  where
    some_row : {a b : EntryRow} → some a ≡ some b → a ≡ b
    some_row p = cc
next_page (suc n) (f ∷ g ∷ es) e h k =
    let earlier : is_before (cursor_of f) e ≡ true =
      last_row-All (λ r. is_before (cursor_of f) r ≡ true) (suc n) (g ∷ es) e h.0 k in
    let not_here : is_before (cursor_of e) f ≡ false = not_before_earlier f e earlier in
    let rest : where_rows (is_before (cursor_of e)) (g ∷ es) ≡ drop (suc n) (g ∷ es) =
      next_page n (g ∷ es) e h.1 k in
    rw not_here rest
