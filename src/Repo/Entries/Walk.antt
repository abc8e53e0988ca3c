-- ===== src/Repo/Entries/Walk.antt =====
-- A client that follows the cursors sees every entry once, in order.
use ledger_x.Prelude.{
  ◌∙◌, ◌<◌, ◌+◌, sym, length-append, arith, Option, ==_iff, ◌⊎◌, ◌≡◌, ◌∷◌, ◌==◌, ◌++◌, ℕ, zero,
  true, take, suc, some, refl, none, length, inr, inl, if◌then◌else◌, false, drop, ap, [], List,
  Bool-cases, Bool,
}
use ledger_x.Repo.Entries.{last_row, is_before, cursor_of, EntryRow, Cursor}
use ledger_x.Repo.Entries.Pages.{next_page, last_row-All, before_trans, IsFalling}
use ledger_x.Prelude.Select.{where_rows}
use ledger_x.Prelude.Kept.{where_rows_pass, where_rows-All}

-- The pages from a cursor on, by `limit` rows, joined; a page that is not full is the last.
unfoldable pub walk : ℕ → ℕ → Cursor → List EntryRow → List EntryRow
walk zero limit c es = []
walk (suc fuel) limit c es =
    let page = take limit (where_rows (is_before c) es) in
    if length page == limit
    then (elim (last_row page) [ none ↦ [] | some e ↦ page ++ walk fuel limit (cursor_of e) es ])
    else page

where_rows-IsFalling :
    (c : Cursor) (es : List EntryRow) → IsFalling es → IsFalling (where_rows (is_before c) es)
where_rows-IsFalling c [] h = tt
where_rows-IsFalling c (e ∷ es) h = elim (Bool-cases (is_before c e)) [
  | inl passes ↦ rw passes (where_rows-All _ (is_before c) es h.0, where_rows-IsFalling c es h.1)
  | inr fails ↦ rw fails (where_rows-IsFalling c es h.1)
]

-- A later cursor selects from what an earlier one selected.
where_rows_twice :
    (c : Cursor) (e : EntryRow) (es : List EntryRow)
    → is_before c e ≡ true
    → where_rows (is_before (cursor_of e)) (where_rows (is_before c) es)
      ≡ where_rows (is_before (cursor_of e)) es
where_rows_twice c e [] h = refl
where_rows_twice c e (f ∷ es) h = elim (Bool-cases (is_before c f)) [
  | inl passes ↦ rw passes (both (is_before (cursor_of e) f) (where_rows_twice c e es h))
  | inr fails ↦
      let later : is_before (cursor_of e) f ≡ false =
        not_later (Bool-cases (is_before (cursor_of e) f)) fails in
      rw (fails, later) (where_rows_twice c e es h)
]
  where
    both :
        (b : Bool) {xs ys : List EntryRow}
        → xs ≡ ys
        → (if b then f ∷ xs else xs) ≡ (if b then f ∷ ys else ys)
    both true p = ap (λ z. f ∷ z) p
    both false p = p

    not_later :
        (is_before (cursor_of e) f ≡ true) ⊎ (is_before (cursor_of e) f ≡ false)
        → is_before c f ≡ false
        → is_before (cursor_of e) f ≡ false
    not_later (inl k) fails = let t = before_trans c e f h k in cc
    not_later (inr k) fails = k

take-drop : (n : ℕ) (es : List EntryRow) → take n es ++ drop n es ≡ es
take-drop zero es = refl
take-drop (suc n) [] = refl
take-drop (suc n) (e ∷ es) = ap (λ z. e ∷ z) (take-drop n es)

take_short : (n : ℕ) (es : List EntryRow) → (length (take n es) == n) ≡ false → take n es ≡ es
take_short zero es h = cc
take_short (suc n) [] h = refl
take_short (suc n) (e ∷ es) h =
    let rest : (length (take n es) == n) ≡ false = ground arith in
    ap (λ z. e ∷ z) (take_short n es rest)

length-drop_full :
    (n : ℕ) (es : List EntryRow) → length (take n es) ≡ n → n + length (drop n es) ≡ length es
length-drop_full n es h =
    let whole : length (take n es) + length (drop n es) ≡ length es =
      sym (length-append (take n es) (drop n es)) ∙ ap length (take-drop n es) in
    omega arith

last_row-none : (es : List EntryRow) → last_row es ≡ none → es ≡ []
last_row-none [] h = refl
last_row-none (e ∷ []) h = cc
last_row-none (e ∷ f ∷ es) h = let rest = last_row-none (f ∷ es) h in cc

-- The pages by at least one row are all the rows after the cursor.
pub walk_all :
    (fuel m : ℕ) (c : Cursor) (es : List EntryRow)
    → IsFalling es
    → length (where_rows (is_before c) es) < fuel
    → walk fuel (suc m) c es ≡ where_rows (is_before c) es
unfolding walk
walk_all zero m c es falling h = absurd (omega arith)
walk_all (suc fuel) m c es falling h =
    paged (λ e k. walk_all fuel m (cursor_of e) es falling k)
      (Bool-cases (length (take (suc m) rows) == suc m))
  where
    rows : List EntryRow
    rows = where_rows (is_before c) es

    follow : Option EntryRow → List EntryRow
    follow o = elim o [
      | none ↦ []
      | some e ↦ take (suc m) rows ++ walk fuel (suc m) (cursor_of e) es
    ]

    Again : Type 0
    Again =
        (e : EntryRow)
        → length (where_rows (is_before (cursor_of e)) es) < fuel
        → walk fuel (suc m) (cursor_of e) es ≡ where_rows (is_before (cursor_of e)) es

    followed :
        Again
        → (o : Option EntryRow) → last_row (take (suc m) rows) ≡ o
        → length (take (suc m) rows) ≡ suc m
        → follow o ≡ rows
    followed again none p q =
        let empty = last_row-none (take (suc m) rows) p in
        let count : length (take (suc m) rows) ≡ 0 = rw empty refl in absurd (omega arith)
    followed again (some e) p q =
        let before : is_before c e ≡ true =
          last_row-All (λ f. is_before c f ≡ true) (suc m) rows e (where_rows_pass (is_before c) es)
            p in
        let next : where_rows (is_before (cursor_of e)) es ≡ drop (suc m) rows =
          sym (where_rows_twice c e es before)
          ∙ next_page m rows e (where_rows-IsFalling c es falling) p in
        let left : suc m + length (drop (suc m) rows) ≡ length rows =
          length-drop_full (suc m) rows q in
        let fewer : length (where_rows (is_before (cursor_of e)) es) < fuel =
          rw next (omega arith) in
        let rest : walk fuel (suc m) (cursor_of e) es ≡ drop (suc m) rows = again e fewer ∙ next in
        rw rest (take-drop (suc m) rows)

    paged :
        Again
        → ((length (take (suc m) rows) == suc m) ≡ true)
          ⊎ ((length (take (suc m) rows) == suc m) ≡ false)
        → (if length (take (suc m) rows) == suc m
            then follow (last_row (take (suc m) rows))
            else take (suc m) rows)
          ≡ rows
    paged again (inl full) = rw full (
        followed again (last_row (take (suc m) rows)) refl
          ((==_iff (length (take (suc m) rows)) (suc m)).0 full))
    paged again (inr short) = rw short (take_short (suc m) rows short)
