-- ===== src/Repo/Users.antt =====
-- internal/repo/sqlc/users.sql.go
use ledger_x.Repo.World.{unique_violation, one_row, ok, err, call, Action}
use ledger_x.Prelude.{
  ◌∷◌, ◌==◌, ◌+◌, ◌++◌, ℕ, str_eq, if◌then◌else◌, [], String, Option, List, Bool,
}
use ledger_x.Repo.Models.{User}
use ledger_x.Prelude.Select.{find_row, exists_row}

abbrev pub has_email : String → User → Bool
has_email email u = str_eq u.email email

-- UNIQUE (email); the id is drawn before the constraint is checked.
unfoldable pub insert_user : String → String → Action User
insert_user email hash w =
    let row : User = record {
      id = w.seqs.users;
      email = email;
      password_hash = hash;
      created_at = w.now;
    } in
    let w' = record w { seqs = record w.seqs { users = w.seqs.users + 1 } } in
    if exists_row (has_email email) w.db.users
    then (err unique_violation, w')
    else (ok row, record w' { db = record w.db { users = w.db.users ++ row ∷ [] } })

unfoldable pub create_user : String → String → Action User
create_user email hash = call (insert_user email hash)

abbrev pub find_by_email : String → List User → Option User
find_by_email email = find_row (has_email email)

unfoldable pub get_user_by_email : String → Action User
get_user_by_email email = call (λ w. one_row (find_by_email email w.db.users) w)

unfoldable pub get_user_by_id : ℕ → Action User
get_user_by_id id = call (λ w. one_row (find_row (λ (u : User). u.id == id) w.db.users) w)
