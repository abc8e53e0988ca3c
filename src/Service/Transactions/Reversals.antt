-- ===== src/Service/Transactions/Reversals.antt =====
-- A reversal takes back what its original did, and happens once.
use ledger_x.Prelude.{
  ◌⊎◌, inr, inl, ◌≢◌, ◌≡◌, ◌∷◌, ◌==◌, ℕ, true, map, if◌then◌else◌, false, ap, [], List, Bool, All,
}
use ledger_x.Repo.Models.{Posting, Database}
use ledger_x.Service.Types.{TransactionDto, ReverseInput, Env}
use ledger_x.Int64.{neg64_lem, neg64, min_int64, InRange}
use ledger_x.Service.Transactions.Reversed.{reverse-Atomic, Reversed}
use ledger_x.Service.Transactions.Ownership.{account_sum}
use ledger_x.Prelude.Int.{+ℤ_assoc, +ℤ-zero, pos_part, neg_part, ◌-ℤ◌, ◌+ℤ◌, ℤ, pos, int_laws}
use ledger_x.Service.Transactions.Written.{leg_of}
use ledger_x.Service.Transactions.Reverse.{reverse, negated}
use ledger_x.Repo.Transactions.{postings_of}
use ledger_x.Prelude.Kept.{where_rows-All, order_by-All}
use ledger_x.Repo.Atomic.{IsReady, Atomic-cases}
use ledger_x.Repo.World.{World}
use ledger_x.Service.Transactions.Once.{find_owned_id}
use ledger_x.Prelude.Select.{sum_where-append}

-- Amounts that have a negative in 64 bits.
abbrev pub Negatable : Posting → Type 0
Negatable p = InRange p.amount_minor × (p.amount_minor ≢ min_int64)

-- The legs that negate some postings take back their sum on every account.
negated_sum :
    (a : ℕ) (ps rows : List Posting)
    → All Negatable ps
    → map leg_of rows ≡ map negated ps
    → account_sum a rows +ℤ account_sum a ps ≡ pos 0
negated_sum a [] [] h e = omega int_laws
negated_sum a [] (r ∷ rows) h e = cc
negated_sum a (p ∷ ps) [] h e = cc
negated_sum a (p ∷ ps) (r ∷ rows) h e =
    let account : r.account_id ≡ p.account_id = cc in
    let amount : r.amount_minor ≡ neg64 p.amount_minor = cc in
    let rest : map leg_of rows ≡ map negated ps = cc in
    let ih = negated_sum a ps rows h.1 rest in
    rw (account, amount, neg64_lem p.amount_minor h.0.0 h.0.1)
      (pairwise (p.account_id == a) p.amount_minor (account_sum a rows) (account_sum a ps) ih)
  where
    pairwise :
        (b : Bool) (x s t : ℤ)
        → s +ℤ t ≡ pos 0
        → (if b then pos 0 -ℤ x +ℤ s else s) +ℤ (if b then x +ℤ t else t) ≡ pos 0
    pairwise true x s t e =
        let up : pos_part (s +ℤ t) ≡ 0 = ap pos_part e in
        let down : neg_part (s +ℤ t) ≡ 0 = ap neg_part e in omega int_laws
    pairwise false x s t e = e

-- A committed reversal takes back what the original put on the account.
pub Reversed-cancels :
    (env : Env) (input : ReverseInput) (d d' : Database) (dto : TransactionDto) (a : ℕ)
    → All Negatable d.postings
    → Reversed env input d dto d'
    → account_sum a d'.postings +ℤ account_sum a (postings_of input.transaction_id d.postings)
      ≡ account_sum a d.postings
Reversed-cancels env input d d' dto a safe h =
    let r = h.recorded in
    let same : h.between.postings ≡ d.postings = ap (λ x. x.postings) h.claimed.claimed in
    let id : r.original.id ≡ input.transaction_id =
      find_owned_id input.transaction_id input.user_id h.between r.original r.original_found in
    let cancels : account_sum a r.rows
          +ℤ account_sum a (postings_of input.transaction_id d.postings)
        ≡ pos 0 =
      negated_sum a (postings_of input.transaction_id d.postings) r.rows
        (order_by-All Negatable _ _ (where_rows-All Negatable _ d.postings safe))
        (rw (← same, ← id) r.rows_negate) in
    rw (r.rows_added, same, sum_where-append, +ℤ_assoc, cancels) (+ℤ-zero _)

-- When no transaction is open, every transaction balances and every posted amount is an int64
-- other than the least, Reverse under any faults leaves the tables as they are, or takes from
-- every account exactly what the postings of the original put on it.
pub reverse_undoes :
    (env : Env) (input : ReverseInput) (w : World) (a : ℕ)
    → IsReady w
    → All Negatable w.db.postings
    → let d' = (reverse env input w).1.db in
      (d' ≡ w.db)
      ⊎ (account_sum a d'.postings +ℤ account_sum a (postings_of input.transaction_id w.db.postings)
          ≡ account_sum a w.db.postings)
reverse_undoes env input w a ready safe = elim (Atomic-cases (reverse-Atomic env input w ready)) [
  | inl same ↦ inl same
  | inr (dto, h) ↦ inr (Reversed-cancels env input w.db _ dto a safe h)
]
