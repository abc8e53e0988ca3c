-- ===== src/Service/Transactions/Validated.antt =====
-- What validateLegs accepts, and the sum that the external leg negates.
use ledger_x.Prelude.Int.{◌+ℤ◌, ℤ, zero-+ℤ, pos, eq_ℤ_iff, eq_ℤ, +ℤ_assoc, +ℤ-zero}
use ledger_x.Prelude.{
  some, not, if◌then◌else◌, ◌⊎◌, ◌≡◌, ◌∷◌, ◌∙◌, ◌↔◌, true, sym, refl, none, inr, inl, false, arith,
  ap, [], List, Bool-cases, Bool, All,
}
use ledger_x.Int64.{wrap64_id, wrap64-+ℤ-wrap64, wrap64, add64, InRange}
use ledger_x.Service.Types.{Leg}
use ledger_x.Service.Transactions.Legs.{validate_legs, validate_from, sum_from}
use ledger_x.Repo.World.{zero_amount, unbalanced}

-- The sum of the legs without bounds.
abbrev pub exact_sum : List Leg → ℤ
exact_sum [] = pos 0
exact_sum (l ∷ legs) = l.amount_minor +ℤ exact_sum legs

add64_wrap : (a b : ℤ) → add64 (wrap64 a) b ≡ wrap64 (a +ℤ b)
add64_wrap a b = unfold add64 in wrap64-+ℤ-wrap64 a b

sum_from_wrap : (legs : List Leg) (a : ℤ) → sum_from (wrap64 a) legs ≡ wrap64 (a +ℤ exact_sum legs)
unfolding sum_from
sum_from_wrap [] a = ap wrap64 (sym (+ℤ-zero a))
sum_from_wrap (l ∷ legs) a =
    rw (add64_wrap a l.amount_minor, sum_from_wrap legs (a +ℤ l.amount_minor), +ℤ_assoc) refl

-- When the exact sum of the legs fits an int64, the sum that the external leg negates is the
-- exact sum, although a partial sum may wrap.
pub sum_from_exact :
    (legs : List Leg) → InRange (exact_sum legs) → sum_from (pos 0) legs ≡ exact_sum legs
sum_from_exact legs h =
    let start : wrap64 (pos 0) ≡ pos 0 = wrap64_id (pos 0) (ground arith, ground arith) in
    let summed : sum_from (wrap64 (pos 0)) legs ≡ wrap64 (pos 0 +ℤ exact_sum legs) =
      sum_from_wrap legs (pos 0) in
    ap (λ z. sum_from z legs) (sym start) ∙ summed ∙ rw zero-+ℤ (wrap64_id (exact_sum legs) h)

-- No leg is zero, and without an external leg the 64 bits of the sum are 0.
abbrev pub IsAccepted : ℤ → List Leg → Bool → Type 0
IsAccepted a legs with_external =
    All (λ (l : Leg). eq_ℤ l.amount_minor (pos 0) ≡ false) legs
    × ((with_external ≡ true) ⊎ (wrap64 (a +ℤ exact_sum legs) ≡ pos 0))

last_step :
    (a : ℤ) (b : Bool)
    → (eq_ℤ (wrap64 a) (pos 0) ≡ b)
    → ((if not b then some unbalanced else none) ≡ none) ↔ (wrap64 (a +ℤ pos 0) ≡ pos 0)
last_step a true e = (λ h. rw (+ℤ-zero a) ((eq_ℤ_iff (wrap64 a) (pos 0)).0 e), λ h. refl)
last_step a false e = (
  λ h. cc,
  λ h.
      let zero_sum : eq_ℤ (wrap64 a) (pos 0) ≡ true =
        (eq_ℤ_iff (wrap64 a) (pos 0)).1 (ap wrap64 (sym (+ℤ-zero a)) ∙ h) in
      cc,
)

module _ (with_external : Bool) where
  accepts :
      (legs : List Leg) (a : ℤ)
      → validate_from (wrap64 a) legs with_external ≡ none
      → IsAccepted a legs with_external
  unfolding validate_from
  accepts [] a h = elim (Bool-cases with_external) [
    | inl given ↦ (tt, inl given)
    | inr absent ↦ (tt, inr ((last_step a (eq_ℤ (wrap64 a) (pos 0)) refl).0 (rw absent at h)))
  ]
  accepts (l ∷ legs) a h = elim (Bool-cases (eq_ℤ l.amount_minor (pos 0))) [
    | inl zero_leg ↦ let refused : some zero_amount ≡ none = rw zero_leg at h in cc
    | inr nonzero ↦
        let rest : validate_from (wrap64 (a +ℤ l.amount_minor)) legs with_external ≡ none =
          rw (nonzero, add64_wrap a l.amount_minor) at h in
        let (all, sum) = accepts legs (a +ℤ l.amount_minor) rest in
        ((nonzero, all), rw (← +ℤ_assoc a l.amount_minor (exact_sum legs)) sum)
  ]

  accepted :
      (legs : List Leg) (a : ℤ)
      → IsAccepted a legs with_external
      → validate_from (wrap64 a) legs with_external ≡ none
  unfolding validate_from
  accepted [] a (all, inl given) = rw given refl
  accepted [] a (all, inr sum) = elim (Bool-cases with_external) [
    | inl given ↦ rw given refl
    | inr absent ↦ rw absent ((last_step a (eq_ℤ (wrap64 a) (pos 0)) refl).1 sum)
  ]
  accepted (l ∷ legs) a ((nonzero, all), sum) =
      rw (nonzero, add64_wrap a l.amount_minor)
        (accepted legs (a +ℤ l.amount_minor)
          (all, rw (+ℤ_assoc a l.amount_minor (exact_sum legs)) sum))

-- validateLegs accepts some legs exactly when none is zero and, without an external leg, the 64
-- bits of their sum are zero.
pub validate_legs_iff :
    (legs : List Leg) (with_external : Bool)
    → (validate_legs legs with_external ≡ none) ↔ (
        All (λ (l : Leg). eq_ℤ l.amount_minor (pos 0) ≡ false) legs
        × ((with_external ≡ true) ⊎ (wrap64 (exact_sum legs) ≡ pos 0)))
unfolding validate_legs
validate_legs_iff legs with_external =
    let start : wrap64 (pos 0) ≡ pos 0 = wrap64_id (pos 0) (ground arith, ground arith) in
    let sum : pos 0 +ℤ exact_sum legs ≡ exact_sum legs = zero-+ℤ (exact_sum legs) in
    (
      λ h. rw (← sum) (accepts with_external legs (pos 0) (rw start h)),
      λ h. rw (← start) (accepted with_external legs (pos 0) (rw sum h)),
    )
