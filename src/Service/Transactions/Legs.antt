-- ===== src/Service/Transactions/Legs.antt =====
-- internal/service/transactions.go, validateLegs and the checks on each leg.
use ledger_x.Prelude.{
  ℕ, String, Bool, not, ◌&&◌, Option, none, some, List, [], ◌∷◌, ◌++◌, ◌==◌, str_eq, if◌then◌else◌,
}
use ledger_x.Prelude.Int.{ℤ, pos, eq_ℤ}
use ledger_x.Int64.{add64, neg64}
use ledger_x.Repo.Models.{Account}
use ledger_x.Repo.World.{
  attempt, found, is_no_rows, Error, Result, ok, err, account_not_found, forbidden,
  account_inactive, currency_mismatch, unbalanced, zero_amount, Action, pure, raise, raise_if,
  ◌>>=◌, ◌>>◌,
}
use ledger_x.Repo.Accounts.{is_external, get_account, get_external_account, create_external_account}
use ledger_x.Service.Types.{Leg, BalancedInput}

-- The loop of validateLegs from a partial sum; `none` is a nil error.
unfoldable pub validate_from : ℤ → List Leg → Bool → Option Error
validate_from sum [] external =
    if not external && not (eq_ℤ sum (pos 0)) then some unbalanced else none
validate_from sum (l ∷ legs) external =
    if eq_ℤ l.amount_minor (pos 0)
    then some zero_amount
    else validate_from (add64 sum l.amount_minor) legs external

unfoldable pub validate_legs : List Leg → Bool → Option Error
validate_legs legs external = validate_from (pos 0) legs external

-- for _, l := range legs { sum += l.AmountMinor }
unfoldable pub sum_from : ℤ → List Leg → ℤ
sum_from sum [] = sum
sum_from sum (l ∷ legs) = sum_from (add64 sum l.amount_minor) legs

unfoldable pub external_or_create : ℕ → String → Result Account → Action ℕ
external_or_create uid currency (ok ext) = pure ext.id
external_or_create uid currency (err e) =
    if is_no_rows e
    then (do created ← create_external_account uid currency; pure created.id)
    else raise e

unfoldable pub resolve_external : ℕ → String → Action ℕ
resolve_external uid currency = do
  r ← attempt (get_external_account uid)
  external_or_create uid currency r

-- Step 2 of createBalanced.
unfoldable pub resolve_legs : BalancedInput → Action (List Leg)
resolve_legs input =
    if input.use_external_leg
    then (do
      ext_id ← resolve_external input.user_id input.currency
      pure (
          input.legs
          ++ record { account_id = ext_id; amount_minor = neg64 (sum_from (pos 0) input.legs) }
            ∷ []))
    else pure input.legs

-- Step 3 on one leg, and on all.
unfoldable pub check_leg : ℕ → String → Leg → Action Unit
check_leg uid currency l = do
  r ← attempt (get_account l.account_id)
  acc ← found account_not_found r
  raise_if (not (acc.user_id == uid)) forbidden
  raise_if (not acc.is_active) account_inactive
  raise_if (not (is_external acc.kind) && not (str_eq acc.currency currency)) currency_mismatch

unfoldable pub check_legs : ℕ → String → List Leg → Action Unit
check_legs uid currency [] = pure tt
check_legs uid currency (l ∷ legs) = do check_leg uid currency l; check_legs uid currency legs
