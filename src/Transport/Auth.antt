-- ===== src/Transport/Auth.antt =====
-- internal/transport/http: auth.go, middleware.go, and Me of users.go.
pub mod Sessions
mod Tests
use Prim.Native.String.{len, slice}
use text.Mathlib.Text.{starts_with}
use ledger_x.Service.Auth.{parse_jwt, generate_jwt, AuthEnv}
use ledger_x.Prelude.{
  ◌||◌, ◌&&◌, ℕ, str_eq, some, not, none, ltb, if◌then◌else◌, String, Option, Bool,
}
use ledger_x.Transport.Handlers.{replied, rejected, authorized, Response, Handler}
use ledger_x.Repo.World.{ok, err, World, Result}
use ledger_x.Repo.Models.{User}
use ledger_x.Repo.Users.{get_user_by_id, get_user_by_email, create_user}
use ledger_x.Service.Samples.{header}

pub record Credentials : Type 0 where
  pub email : String
  pub password : String

abbrev pub normalized : AuthEnv → String → String
normalized a email = a.trim_space (a.to_lower email)

-- strings.HasPrefix and strings.TrimPrefix
abbrev pub cut_prefix : String → String → Option String
cut_prefix prefix s = if starts_with s prefix then some (slice s (len prefix) (len s)) else none

-- credentials.validate, of an email that is normalized
abbrev pub is_valid : AuthEnv → String → String → Bool
is_valid a email password =
    not (str_eq email "" || not (a.contains_at email)) && not (ltb (len password) 8)

abbrev pub token_reply : ℕ → Option String → Handler String
token_reply status none w = (rejected 500, w)
token_reply status (some token) w = (replied status token, w)

abbrev pub registered : AuthEnv → String → ℕ → Result User × World → Response String × World
registered a secret now (ok u, w) = token_reply 201 (generate_jwt a secret now u.id) w
registered a secret now (err e, w) = (rejected 409, w)

abbrev pub with_hash : AuthEnv → String → ℕ → String → Option String → Handler String
with_hash a secret now email none w = (rejected 500, w)
with_hash a secret now email (some hash) w = registered a secret now (create_user email hash w)

-- Register, at a time and with a salt
unfoldable pub register : AuthEnv → String → ℕ → ℕ → Option Credentials → Handler String
register a secret now salt none w = (rejected 400, w)
register a secret now salt (some c) w =
    if is_valid a (normalized a c.email) c.password
    then with_hash a secret now (normalized a c.email) (a.bcrypt_generate salt c.password) w
    else (rejected 422, w)

abbrev pub checked : AuthEnv → String → ℕ → String → Result User × World → Response String × World
checked a secret now password (err e, w) = (rejected 401, w)
checked a secret now password (ok u, w) =
    if a.bcrypt_compare u.password_hash password
    then token_reply 200 (generate_jwt a secret now u.id) w
    else (rejected 401, w)

unfoldable pub login : AuthEnv → String → ℕ → Option Credentials → Handler String
login a secret now none w = (rejected 400, w)
login a secret now (some c) w =
    checked a secret now c.password (get_user_by_email (normalized a c.email) w)

abbrev pub with_user : {A : Type 0} → Option ℕ → (Option ℕ → Handler A) → Handler A
with_user none k w = (rejected 401, w)
with_user (some uid) k w = k (some uid) w

abbrev pub with_bearer :
    {A : Type 0} → AuthEnv → String → ℕ → Option String → (Option ℕ → Handler A) → Handler A
with_bearer a secret now none k w = (rejected 401, w)
with_bearer a secret now (some token) k w = with_user (parse_jwt a secret now token) k w

-- AuthMiddleware: `k` is the handler behind it, given what the context holds.
unfoldable pub auth_middleware :
    {A : Type 0} → AuthEnv → String → ℕ → String → (Option ℕ → Handler A) → Handler A
auth_middleware a secret now header k w = with_bearer a secret now (cut_prefix "Bearer " header) k w

pub record UserDto : Type 0 where
  pub id : ℕ
  pub email : String

abbrev pub user_reply : Result User × World → Response UserDto × World
user_reply (ok u, w) = (replied 200 (record { id = u.id; email = u.email }), w)
user_reply (err e, w) = (rejected 404, w)

unfoldable pub me : Option ℕ → Handler UserDto
me token = authorized token λ uid. λ w. user_reply (get_user_by_id uid w)
