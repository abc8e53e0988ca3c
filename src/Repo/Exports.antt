-- ===== src/Repo/Exports.antt =====
-- internal/repo/sqlc/exports.sql.go
use ledger_x.Repo.Models.{Transaction, Posting, Export, Database, Account}
use ledger_x.Repo.World.{one_row, ok, foreign_key_violation, err, call, Action}
use ledger_x.Prelude.{
  ◌∷◌, ◌||◌, ◌==◌, ◌+◌, ◌++◌, ◌&&◌, ℕ, some, not, none, ltb, if◌then◌else◌, [], String, Option,
  List, Bool,
}
use ledger_x.Service.Types.{Env}
use ledger_x.Repo.Accounts.{user_exists, is_external, find_account}
use ledger_x.Prelude.Select.{update_rows, order_by, find_row}
use ledger_x.Repo.Transactions.{find_transaction}
use ledger_x.Prelude.Int.{ℤ}

-- The first status of an export, by the INSERT.
unfoldable pub insert_export : ℕ → ℕ → Action Export
insert_export uid month w =
    let row : Export = record {
      id = w.seqs.exports;
      user_id = uid;
      month = month;
      status = "pending";
      file_path = none;
      created_at = w.now;
      updated_at = w.now;
    } in
    let w' = record w { seqs = record w.seqs { exports = w.seqs.exports + 1 } } in
    if user_exists w.db uid
    then (ok row, record w' { db = record w.db { exports = w.db.exports ++ row ∷ [] } })
    else (err foreign_key_violation, w')

unfoldable pub create_export : ℕ → ℕ → Action Export
create_export uid month = call (insert_export uid month)

abbrev pub find_export : ℕ → List Export → Option Export
find_export id = find_row (λ (e : Export). e.id == id)

unfoldable pub get_export_by_id : ℕ → Action Export
get_export_by_id id = call (λ w. one_row (find_export id w.db.exports) w)

-- ListPostingsForMonthRow
pub record ExportRow : Type 0 where
  pub posting_id : ℕ
  pub transaction_id : ℕ
  pub account_id : ℕ
  pub account_name : String
  pub category_id : Option ℕ
  pub amount_minor : ℤ
  pub currency : String
  pub occurred_at : ℕ
  pub note : Option String

abbrev pub export_row : Posting → Transaction → Account → ExportRow
export_row p t a = record {
  posting_id = p.id;
  transaction_id = t.id;
  account_id = p.account_id;
  account_name = a.name;
  category_id = t.category_id;
  amount_minor = p.amount_minor;
  currency = t.currency;
  occurred_at = t.occurred_at;
  note = t.note;
}

-- WHERE t.user_id = $1 AND a.kind = 'normal' AND the months are the same
abbrev pub is_exported : Env → ℕ → ℕ → Transaction → Account → Bool
is_exported env uid month t a =
    t.user_id == uid
    && (not (is_external a.kind) && env.sql_month t.occurred_at == env.sql_month month)

-- JOIN transactions t ON t.id = p.transaction_id JOIN accounts a ON a.id = p.account_id
abbrev pub export_rows : Env → ℕ → ℕ → Database → List Posting → List ExportRow
export_rows env uid month d [] = []
export_rows env uid month d (p ∷ ps) =
    let rest = export_rows env uid month d ps in
    elim (find_transaction p.transaction_id d.transactions) [
      | none ↦ rest
      | some t ↦ elim (find_account p.account_id d) [
        | none ↦ rest
        | some a ↦ if is_exported env uid month t a then export_row p t a ∷ rest else rest
      ]
    ]

-- ORDER BY t.occurred_at, p.id
abbrev pub row_before : ExportRow → ExportRow → Bool
row_before r s =
    ltb r.occurred_at s.occurred_at
    || (r.occurred_at == s.occurred_at && ltb r.posting_id s.posting_id)

abbrev pub month_rows : Env → ℕ → ℕ → Database → List ExportRow
month_rows env uid month d = order_by row_before (export_rows env uid month d d.postings)

unfoldable pub list_postings_for_month : Env → ℕ → ℕ → Action (List ExportRow)
list_postings_for_month env uid month = call λ w. (ok (month_rows env uid month w.db), w)

abbrev pub with_status : String → Option String → ℕ → Export → Export
with_status status path at e = record e { status = status; file_path = path; updated_at = at }

unfoldable pub update_export_status : ℕ → String → Option String → Action Unit
update_export_status id status path = call λ w. (
  ok tt,
  record w {
    db = record w.db {
      exports =
          update_rows (λ (e : Export). e.id == id) (with_status status path w.now) w.db.exports;
    };
  },
)
