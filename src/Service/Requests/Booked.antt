-- ===== src/Service/Requests/Booked.antt =====
-- The postings of the tables as a journal, and how new ones extend it.
use ledger_x.Prelude.Int.{◌+ℤ◌, zero-+ℤ, pos, +ℤ_assoc}
use ledger_x.Repo.World.{World}
use ledger_x.Repo.Atomic.{IsReady, Atomic-cases}
use ledger_x.Service.Types.{Leg, Env, BalancedInput}
use ledger_x.Prelude.{
  All, ◌≡◌, ◌∷◌, ◌∙◌, ◌++◌, ℕ, true, sym, refl, map, inr, inl, false, ap, [], List,
}
use ledger_x.Repo.Models.{Posting, Database}
use ledger_x.Service.Requests.{Request}
use ledger_x.Service.Requests.Sound.{total, balanced_total}
use ledger_x.Service.Transactions.Create.{create_balanced}
use ledger_x.Service.Transactions.AllOrNothing.{create_balanced-Atomic}
use ledger_x.Service.Transactions.Validated.{exact_sum}
use ledger_x.Service.Transactions.Written.{leg_of}
use ledger_x.Service.Requests.Journal.{appends, Entry, Step, rests, booked, Journal, Books}
use ledger_x.Int64.{neg64}
use ledger_x.Service.Transactions.Legs.{sum_from}

-- What the tables say.
abbrev pub entry_of : Posting → Entry
entry_of p = booked p.transaction_id (leg_of p)

abbrev pub journal : World → Journal
journal w = map entry_of w.db.postings

total-append : (ps qs : List Posting) → total (ps ++ qs) ≡ total ps +ℤ total qs
total-append [] qs = sym (zero-+ℤ (total qs))
total-append (p ∷ ps) qs =
    rw (total-append ps qs) (sym (+ℤ_assoc p.amount_minor (total ps) (total qs)))

exact_sum-rows : (rows : List Posting) → exact_sum (map leg_of rows) ≡ total rows
exact_sum-rows [] = refl
exact_sum-rows (p ∷ rows) = rw (exact_sum-rows rows) refl

-- New postings that leave every transaction balanced sum to zero.
appended_zero :
    (w w' : World) (rows : List Posting)
    → IsReady w
    → IsReady w'
    → w'.db.postings ≡ w.db.postings ++ rows
    → exact_sum (map leg_of rows) ≡ pos 0
appended_zero w w' rows h k added =
    let before : total w.db.postings ≡ pos 0 = balanced_total w.db.postings h.balanced in
    let after : total w.db.postings +ℤ total rows ≡ pos 0 =
      rw (← total-append w.db.postings rows, ← added) (balanced_total w'.db.postings k.balanced) in
    exact_sum-rows rows ∙ (sym (zero-+ℤ (total rows)) ∙ (rw before at after))

own_entries :
    (t : ℕ) (rows : List Posting)
    → All (λ (p : Posting). p.transaction_id ≡ t) rows
    → map entry_of rows ≡ map (booked t) (map leg_of rows)
own_entries t [] h = refl
own_entries t (p ∷ rows) h = rw (h.0, own_entries t rows h.1) refl

map-append : (ps qs : List Posting) → map entry_of (ps ++ qs) ≡ map entry_of ps ++ map entry_of qs
map-append [] qs = refl
map-append (p ∷ ps) qs = ap (λ (r : Journal). entry_of p ∷ r) (map-append ps qs)

-- Postings of one new transaction that the request may book are a step.
pub appended-Step :
    (r : Request) (w w' : World) (t : ℕ) (rows : List Posting)
    → IsReady w
    → IsReady w'
    → w'.db.postings ≡ w.db.postings ++ rows
    → All (λ (p : Posting). p.transaction_id ≡ t) rows
    → (exact_sum (map leg_of rows) ≡ pos 0 → Books (journal w) (map leg_of rows) r)
    → Step (journal w) (journal w') r
appended-Step r w w' t rows h k added own books =
    let zero_sum = appended_zero w w' rows h k added in
    appends t (map leg_of rows) (books zero_sum) zero_sum (
      ap (map entry_of) added
      ∙ (map-append w.db.postings rows
          ∙ ap (λ (j : Journal). journal w ++ j) (own_entries t rows own)))

pub create_balanced-Step :
    (r : Request) (env : Env) (input : BalancedInput) (w : World)
    → IsReady w
    → IsReady (create_balanced env input w).1
    → ((legs : List Leg)
        → (input.use_external_leg ≡ false → legs ≡ input.legs)
        → (input.use_external_leg ≡ true
            → (ext : ℕ) × (legs
                ≡ input.legs
                  ++ record { account_id = ext; amount_minor = neg64 (sum_from (pos 0) input.legs) }
                    ∷ []))
        → exact_sum legs ≡ pos 0
        → Books (journal w) legs r)
    → Step (journal w) (journal (create_balanced env input w).1) r
create_balanced-Step r env input w h k books =
    elim (Atomic-cases (create_balanced-Atomic env input w h)) [
      | inl same ↦ rests (ap (λ (d : Database). map entry_of d.postings) same)
      | inr (dto, created) ↦
          let c = created.recorded in
          appended-Step r w (create_balanced env input w).1 c.header.id c.rows h k
            (c.rows_added ∙ ap (λ (d : Database). d.postings ++ c.rows) created.claimed.claimed)
            c.rows_own
            (books (map leg_of c.rows) (λ e. c.rows_legs ∙ c.given e)
              (λ e. ((c.offset e).0, c.rows_legs ∙ (c.offset e).1)))
    ]
