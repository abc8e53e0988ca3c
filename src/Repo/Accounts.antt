-- ===== src/Repo/Accounts.antt =====
-- internal/repo/sqlc/accounts.sql.go
use ledger_x.Prelude.{
  take, ltb, drop, List, ℕ, ◌+◌, String, Bool, true, false, ◌&&◌, ◌||◌, Option, [], ◌∷◌, ◌++◌, ◌==◌,
  str_eq, if◌then◌else◌,
}
use ledger_x.Prelude.Select.{where_rows, order_by, find_row, exists_row, update_rows}
use ledger_x.Repo.Models.{Kind, normal, external, Account, User, Database}
use ledger_x.Repo.World.{
  bad_input, ok, err, unique_violation, foreign_key_violation, Action, one_row, call,
}
use ledger_x.Prelude.Int.{ℤ, pos_part, pos, ltb_ℤ}

abbrev pub is_external : Kind → Bool
is_external normal = false
is_external external = true

abbrev pub user_exists : Database → ℕ → Bool
user_exists d uid = exists_row (λ (u : User). u.id == uid) d.users

abbrev pub external_of : ℕ → Account → Bool
external_of uid a = a.user_id == uid && is_external a.kind

-- UNIQUE (user_id, name), and the partial unique index on external accounts
unfoldable pub account_conflicts : Account → Account → Bool
account_conflicts new a =
    (a.user_id == new.user_id && str_eq a.name new.name)
    || (is_external new.kind && external_of new.user_id a)

-- The id is drawn from the sequence before the constraints are checked.
unfoldable pub insert_account : ℕ → String → String → Kind → Action Account
insert_account uid name currency kind w =
    let row : Account = record {
      id = w.seqs.accounts;
      user_id = uid;
      name = name;
      currency = currency;
      is_active = true;
      kind = kind;
      created_at = w.now;
    } in
    let w' = record w { seqs = record w.seqs { accounts = w.seqs.accounts + 1 } } in
    if exists_row (account_conflicts row) w.db.accounts
    then (err unique_violation, w')
    else if user_exists w.db uid
    then (ok row, record w' { db = record w.db { accounts = w.db.accounts ++ row ∷ [] } })
    else (err foreign_key_violation, w')

unfoldable pub create_account : ℕ → String → String → Action Account
create_account uid name currency = call (insert_account uid name currency normal)

unfoldable pub create_external_account : ℕ → String → Action Account
create_external_account uid currency = call (insert_account uid "External" currency external)

abbrev pub find_account : ℕ → Database → Option Account
find_account id d = find_row (λ (a : Account). a.id == id) d.accounts

unfoldable pub get_account : ℕ → Action Account
get_account id = call (λ w. one_row (find_account id w.db) w)

abbrev pub find_external : ℕ → Database → Option Account
find_external uid d = find_row (external_of uid) d.accounts

unfoldable pub get_external_account : ℕ → Action Account
get_external_account uid = call (λ w. one_row (find_external uid w.db) w)

unfoldable pub deactivate_account : ℕ → Action Unit
deactivate_account id = call λ w. (
  ok tt,
  record w {
    db = record w.db {
      accounts =
          update_rows (λ (a : Account). a.id == id) (λ a. record a { is_active = false })
            w.db.accounts;
    };
  },
)

-- WHERE user_id = $1 ORDER BY created_at DESC LIMIT $2 OFFSET $3; neither may be negative.
abbrev pub accounts_page : ℕ → ℤ → ℤ → Database → List Account
accounts_page uid limit offset d = take (pos_part limit) (
    drop (pos_part offset) (
      order_by (λ (a : Account) (b : Account). ltb b.created_at a.created_at)
        (where_rows (λ (a : Account). a.user_id == uid) d.accounts)))

unfoldable pub list_accounts_by_user : ℕ → ℤ → ℤ → Action (List Account)
list_accounts_by_user uid limit offset = call λ w.
    if ltb_ℤ limit (pos 0) || ltb_ℤ offset (pos 0)
    then (err bad_input, w)
    else (ok (accounts_page uid limit offset w.db), w)
