-- ===== src/Service/Auth.antt =====
-- internal/service/auth.go. The signing key, a global of the Go package, is an argument here.
use ledger_x.Prelude.{◌/◌, ◌+◌, ◌*◌, ℕ, str_eq, some, none, if◌then◌else◌, String, Option, Bool}

pub record Claims : Type 0 where
  pub user_id : ℕ
  pub exp : ℕ

-- A number of a parsed token: JSON reads it as a float64, which the code compares with 0 and
-- converts to int64.
pub record Float64 : Type 0 where
  pub is_positive : Bool
  pub as_int64 : ℕ

-- What lies outside: bcrypt with its salt, the JWT library at a time in seconds, and parts of package
-- strings. `verify` is jwt.Parse with HS256 and a required expiry; a token that it accepts may lack
-- the claim user_id.
pub record AuthEnv : Type 0 where
  pub bcrypt_generate : ℕ → String → Option String
  pub bcrypt_compare : String → String → Bool
  pub sign : Claims → String → Option String
  pub verify : ℕ → String → String → Option (Option Float64)
  pub to_lower : String → String
  pub trim_space : String → String
  pub contains_at : String → Bool

-- The key of the package after the call, or ErrNoSigningKey.
unfoldable pub init_auth : String → Option String
init_auth secret = if str_eq secret "" then none else some secret

-- time.Now().Add(time.Hour * 24).Unix(), of a time in nanoseconds
abbrev pub expiry : ℕ → ℕ
expiry now = (now + 24 * 3600 * 1000000000) / 1000000000

unfoldable pub generate_jwt : AuthEnv → String → ℕ → ℕ → Option String
generate_jwt a secret now uid =
    if str_eq secret "" then none else a.sign (record { user_id = uid; exp = expiry now }) secret

abbrev pub claimed_id : Option (Option Float64) → Option ℕ
claimed_id none = none
claimed_id (some none) = none
claimed_id (some (some id)) = if id.is_positive then some id.as_int64 else none

unfoldable pub parse_jwt : AuthEnv → String → ℕ → String → Option ℕ
parse_jwt a secret now token =
    if str_eq secret "" then none else claimed_id (a.verify (now / 1000000000) token secret)
