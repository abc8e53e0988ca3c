-- ===== src/Worker/Outbox/Keyed.antt =====
-- The primary key of outbox: a row is known by its id.
use ledger_x.Repo.Models.{Outbox}
use ledger_x.Prelude.{
  ◌≡◌, ◌∷◌, ◌∙◌, ◌==◌, ℕ, zero, true, take, sym, suc, some, refl, inr, inl, if◌then◌else◌, ap, [],
  List, Bool-cases, All,
}
use ledger_x.Worker.Outbox.{has_id, batch_of}
use ledger_x.Prelude.Kept.{where_rows-All, order_by-All}
use ledger_x.Prelude.Select.{update_rows}

-- A row with the id of `e` is `e`.
abbrev pub IsOnly : List Outbox → Outbox → Type 0
IsOnly es e = All (λ (x : Outbox). (e.id == x.id) ≡ true → x ≡ e) es

abbrev pub IsKeyed : List Outbox → Type 0
IsKeyed es = All (IsOnly es) es

take-All : (P : Outbox → Type 0) (n : ℕ) (es : List Outbox) → All P es → All P (take n es)
take-All P zero es h = tt
take-All P (suc n) [] h = tt
take-All P (suc n) (e ∷ es) h = (h.0, take-All P n es h.1)

pub batch_of-IsOnly :
    (locked : List ℕ) (es : List Outbox) → IsKeyed es → All (IsOnly es) (batch_of locked es)
batch_of-IsOnly locked es h =
    take-All (IsOnly es) 50 _ (order_by-All (IsOnly es) _ _ (where_rows-All (IsOnly es) _ es h))

-- An UPDATE of processed_at, row by row.
abbrev mark_row : List ℕ → ℕ → Outbox → Outbox
mark_row ids now e = if has_id e.id ids then record e { processed_at = some now } else e

mark_row_id : (ids : List ℕ) (now : ℕ) (e : Outbox) → (mark_row ids now e).id ≡ e.id
mark_row_id ids now e = elim (Bool-cases (has_id e.id ids)) [
  | inl hit ↦ rw hit refl
  | inr missed ↦ rw missed refl
]

abbrev pub mark_rows : List ℕ → ℕ → List Outbox → List Outbox
mark_rows ids now =
    update_rows (λ (e : Outbox). has_id e.id ids) (λ e. record e { processed_at = some now })

mark_rows-IsOnly :
    (ids : List ℕ) (now : ℕ) (es : List Outbox) (e : Outbox)
    → IsOnly es e
    → IsOnly (mark_rows ids now es) (mark_row ids now e)
mark_rows-IsOnly ids now [] e h = tt
mark_rows-IsOnly ids now (x ∷ es) e h = (
  λ same. ap (mark_row ids now) (
      h.0 (
        ap (λ i. i == x.id) (sym (mark_row_id ids now e))
        ∙ (ap (λ i. (mark_row ids now e).id == i) (sym (mark_row_id ids now x)) ∙ same))),
  mark_rows-IsOnly ids now es e h.1,
)

pub mark_rows-IsKeyed :
    (ids : List ℕ) (now : ℕ) (es : List Outbox) → IsKeyed es → IsKeyed (mark_rows ids now es)
mark_rows-IsKeyed ids now es h = all es h
  where
    all :
        (xs : List Outbox)
        → All (IsOnly es) xs
        → All (IsOnly (mark_rows ids now es)) (mark_rows ids now xs)
    all [] k = tt
    all (x ∷ xs) k = (mark_rows-IsOnly ids now es x k.0, all xs k.1)
