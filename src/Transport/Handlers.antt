-- ===== src/Transport/Handlers.antt =====
-- internal/transport/http: ownership.go, balance.go and the writing handlers of transactions.go. A
-- request arrives decoded: what cannot be decoded is `none`.
pub mod Hidden
use ledger_x.Repo.World.{◌>>◌}
use ledger_x.Prelude.{◌||◌, ◌==◌, str_eq, some, not, none, if◌then◌else◌, String, Option, Bool, ℕ}
use ledger_x.Repo.Models.{Account}
use ledger_x.Repo.World.{
  ◌>>=◌, zero_amount, unbalanced, tx_not_found, raise_if, pure, ok, is_reversal,
  idempotency_in_flight, idempotency_conflict, found, forbidden, err, currency_mismatch, attempt,
  already_reversed, account_not_found, account_inactive, World, Result, Error, Action,
}
use ledger_x.Service.Types.{TransactionDto, GoTime, Env}
use ledger_x.Service.Transactions.Create.{transfer, create}
use ledger_x.Service.Balance.{current_balance}
use ledger_x.Repo.Accounts.{get_account}
use ledger_x.Service.Transactions.Reverse.{reverse}
use ledger_x.Prelude.Int.{ℤ}

-- writeJSON with its body, or http.Error; the texts of the errors are left out.
pub data Response (A : Type 0) : Type 0 where
  replied : ℕ → A → Response A
  rejected : ℕ → Response A

-- writeServiceError
abbrev pub status_of : Error → ℕ
status_of account_not_found = 404
status_of tx_not_found = 404
status_of already_reversed = 409
status_of is_reversal = 409
status_of forbidden = 403
status_of account_inactive = 422
status_of currency_mismatch = 422
status_of unbalanced = 422
status_of zero_amount = 422
status_of idempotency_conflict = 409
status_of idempotency_in_flight = 409
status_of _ = 500

abbrev pub Handler : Type 0 → Type 0
Handler A = World → Response A × World

abbrev pub respond : {A : Type 0} → ℕ → Result A × World → Response A × World
respond status (ok a, w) = (replied status a, w)
respond status (err e, w) = (rejected (status_of e), w)

-- The user id of the token, as the middleware put it into the context.
abbrev pub authorized : {A : Type 0} → Option ℕ → (ℕ → Handler A) → Handler A
authorized none k w = (rejected 401, w)
authorized (some uid) k w = if uid == 0 then (rejected 401, w) else k uid w

-- A positive id from the path.
abbrev pub path_id : {A : Type 0} → Option ℕ → (ℕ → Handler A) → Handler A
path_id none k w = (rejected 400, w)
path_id (some id) k w = if id == 0 then (rejected 400, w) else k id w

pub record CreateBody : Type 0 where
  pub account_id : ℕ
  pub amount_minor : ℤ
  pub currency : String
  pub occurred_at : GoTime
  pub note : String

pub record TransferBody : Type 0 where
  pub from_account_id : ℕ
  pub to_account_id : ℕ
  pub amount_minor : ℤ
  pub currency : String
  pub occurred_at : GoTime
  pub note : String

-- IsZero()
abbrev pub is_zero : GoTime → Bool
is_zero t = t.instant == 0

unfoldable pub create_transaction :
    Env → Option ℕ → String → Option CreateBody → Handler TransactionDto
create_transaction env token key none w = (rejected 400, w)
create_transaction env token key (some body) w =
    authorized token
      (λ uid v.
        if body.account_id == 0 || str_eq body.currency "" || is_zero body.occurred_at
        then (rejected 422, v)
        else respond 201 (
            create env
              (record {
                user_id = uid;
                account_id = body.account_id;
                amount_minor = body.amount_minor;
                currency = body.currency;
                occurred_at = body.occurred_at;
                note = body.note;
                idempotency_key = key;
              })
              v))
      w

unfoldable pub create_transfer :
    Env → Option ℕ → String → Option TransferBody → Handler TransactionDto
create_transfer env token key none w = (rejected 400, w)
create_transfer env token key (some body) w =
    authorized token
      (λ uid v.
        if body.from_account_id == 0
          || body.to_account_id == 0
          || str_eq body.currency ""
          || is_zero body.occurred_at
        then (rejected 422, v)
        else respond 201 (
            transfer env
              (record {
                user_id = uid;
                from_account_id = body.from_account_id;
                to_account_id = body.to_account_id;
                amount_minor = body.amount_minor;
                currency = body.currency;
                occurred_at = body.occurred_at;
                note = body.note;
                idempotency_key = key;
              })
              v))
      w

unfoldable pub reverse_transaction : Env → Option ℕ → String → Option ℕ → Handler TransactionDto
reverse_transaction env token key id = authorized token λ uid. path_id id λ tx. λ w.
    respond 201
      (reverse env (record { user_id = uid; transaction_id = tx; idempotency_key = key }) w)

-- ownedAccount: another user's account is reported as missing.
unfoldable pub owned_account : ℕ → ℕ → Action Account
owned_account uid id = do
  r ← attempt (get_account id)
  acc ← found account_not_found r
  raise_if (not (acc.user_id == uid)) account_not_found
  pure acc

abbrev pub or_db_error : Result ℤ × World → Response ℤ × World
or_db_error (ok b, w) = (replied 200 b, w)
or_db_error (err e, w) = (rejected 500, w)

abbrev pub balance_of_owned : Env → ℕ → Result Account × World → Response ℤ × World
balance_of_owned env id (ok acc, w) = or_db_error (current_balance env id w)
balance_of_owned env id (err e, w) = (rejected (status_of e), w)

-- BalanceAPI.GetCurrent
unfoldable pub get_current : Env → Option ℕ → Option ℕ → Handler ℤ
get_current env token id =
    authorized token
      λ uid. path_id id λ acc. λ w. balance_of_owned env acc (owned_account uid acc w)
