-- ===== src/Transport/Accounts.antt =====
-- internal/transport/http: accounts.go, summary.go and admin.go. A request arrives decoded, as in
-- Handlers.
pub mod Listed
mod Tests
use ledger_x.Repo.Models.{Kind, Account}
use ledger_x.Prelude.{
  ◌^◌, ◌%◌, ℕ, str_eq, some, none, map, ltb, if◌then◌else◌, String, Option, List, Bool,
}
use ledger_x.Service.Types.{GoTime, Env}
use ledger_x.Transport.Handlers.{
  status_of, replied, rejected, path_id, owned_account, authorized, Response, Handler,
}
use ledger_x.Repo.World.{ok, err, World, Result, MonthlySummary}
use ledger_x.Repo.Accounts.{list_accounts_by_user, create_account}
use ledger_x.Transport.Exports.{enqueue}
use ledger_x.Service.Summary.{get_monthly_summary}
use ledger_x.Prelude.Int.{◌-ℤ◌, ℤ, pos}
use ledger_x.Worker.Snapshots.{snapshot_all_task}
use ledger_x.Int64.{bits}

pub record CreateAccountReq : Type 0 where
  pub name : String
  pub currency : String

pub record AccountDto : Type 0 where
  pub id : ℕ
  pub user_id : ℕ
  pub name : String
  pub currency : String
  pub active : Bool
  pub kind : Kind

abbrev pub account_dto : Account → AccountDto
account_dto a = record {
  id = a.id;
  user_id = a.user_id;
  name = a.name;
  currency = a.currency;
  active = a.is_active;
  kind = a.kind;
}

abbrev pub or_usd : String → String
or_usd currency = if str_eq currency "" then "USD" else currency

abbrev pub created_account : Result Account × World → Response AccountDto × World
created_account (ok a, w) = (replied 201 (account_dto a), w)
created_account (err e, w) = (rejected 409, w)

-- AccountsAPI.Create
unfoldable pub post_account : Option ℕ → Option CreateAccountReq → Handler AccountDto
post_account token none w = (rejected 400, w)
post_account token (some req) w =
    authorized token
      (λ uid v.
        if str_eq req.name ""
        then (rejected 422, v)
        else created_account (create_account uid req.name (or_usd req.currency) v))
      w

-- int32(n) of an int that is not negative
abbrev pub as_int32 : ℕ → ℤ
as_int32 n =
    let bits = n % 2 ^ 32 in if ltb bits (2 ^ 31) then pos bits else pos bits -ℤ pos (2 ^ 32)

abbrev pub account_list : Result (List Account) × World → Response (List AccountDto) × World
account_list (ok rows, w) = (replied 200 (map account_dto rows), w)
account_list (err e, w) = (rejected 500, w)

-- AccountsAPI.List, with the two parameters as parseInt gives them
unfoldable pub list_accounts : Option ℕ → ℕ → ℕ → Handler (List AccountDto)
list_accounts token limit offset =
    authorized token
      λ uid. λ w. account_list (list_accounts_by_user uid (as_int32 limit) (as_int32 offset) w)

abbrev pub or_db_summary : Result MonthlySummary × World → Response MonthlySummary × World
or_db_summary (ok s, w) = (replied 200 s, w)
or_db_summary (err e, w) = (rejected 500, w)

abbrev pub summary_of_owned :
    Env → ℕ → GoTime → Result Account × World → Response MonthlySummary × World
summary_of_owned env id month (ok acc, w) = or_db_summary (get_monthly_summary env id month w)
summary_of_owned env id month (err e, w) = (rejected (status_of e), w)

abbrev pub given_month : {A : Type 0} → Option GoTime → (GoTime → Handler A) → Handler A
given_month none k w = (rejected 400, w)
given_month (some month) k w = k month w

-- SummaryAPI.GetSummary, with the month as time.Parse("2006-01", …) gives it
unfoldable pub get_summary : Env → Option ℕ → Option ℕ → Option GoTime → Handler MonthlySummary
get_summary env token id month = authorized token λ uid.
    path_id id
      λ acc. given_month month λ m. λ w. summary_of_owned env acc m (owned_account uid acc w)

abbrev pub accepted : Result Unit × World → Response Unit × World
accepted (ok u, w) = (replied 202 tt, w)
accepted (err e, w) = (rejected 500, w)

-- AdminAPI.RunSnapshotAll: `want` is ADMIN_TOKEN and `got` the header, compared as byte strings;
-- `empty_payload` is the JSON of a payload without a date.
unfoldable pub run_snapshot_all : String → String → String → Handler Unit
run_snapshot_all empty_payload want got w =
    if str_eq want ""
    then (rejected 404, w)
    else if str_eq got want
    then accepted (enqueue (snapshot_all_task empty_payload) w)
    else (rejected 403, w)
