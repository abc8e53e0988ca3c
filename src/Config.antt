-- ===== src/Config.antt =====
-- The configuration that cmd/ledgerx/main.go reads from the environment. A variable that is not set
-- is "", as os.Getenv gives it.
mod Tests
use ledger_x.Repo.Outcome.{Yields}
use ledger_x.Prelude.{
  ◌⊎◌, ◌≡◌, ℕ, sym, str_eq, some, refl, none, inr, inl, if◌then◌else◌, false, eq_iff, String,
  Option, Bool-cases,
}
use ledger_x.Service.Auth.{init_auth}
use ledger_x.Prelude.Int.{ℤ, pos_part, pos, ltb_ℤ}
use ledger_x.Repo.World.{◌>>=◌}

-- getenv
unfoldable pub getenv : String → String → String
getenv value fallback = if str_eq value "" then fallback else value

-- envInt, with what strconv.Atoi makes of the variable: none where it is not set or no number
unfoldable pub env_int : Option ℤ → ℕ → ℕ
env_int none fallback = fallback
env_int (some n) fallback = if ltb_ℤ (pos 0) n then pos_part n else fallback

-- The signing key, or a start that is refused.
unfoldable pub signing_key : String → String → Option String
signing_key app_env key =
    if str_eq key ""
    then (if str_eq app_env "dev" then some "dev-only-insecure-secret" else none)
    else some key

abbrev pub init_with : Option String → Option String
init_with none = none
init_with (some key) = init_auth key

-- The key with which the server starts, if it does.
unfoldable pub start_auth : String → String → Option String
start_auth app_env key = init_with (signing_key (getenv app_env "dev") key)

some_key : {k l : String} → some k ≡ some l → k ≡ l
some_key e = cc

-- A server that starts has a signing key that is not empty, and it is the configured one or,
-- where none is configured, the environment is dev.
pub start_auth_key :
    (app_env key secret : String)
    → start_auth app_env key ≡ some secret
    → (str_eq secret "" ≡ false) × ((secret ≡ key) ⊎ ((key ≡ "") × (getenv app_env "dev" ≡ "dev")))
unfolding start_auth signing_key init_auth
start_auth_key app_env key secret h = elim (Bool-cases (str_eq key "")) [
  | inr given ↦
      let same : key ≡ secret = some_key (rw (given, given) at h) in
      (rw (← same) given, inl (sym same))
  | inl unset ↦ elim (Bool-cases (str_eq (getenv app_env "dev") "dev")) [
    | inl dev ↦
        let same : "dev-only-insecure-secret" ≡ secret = some_key (rw (unset, dev) at h) in
        (
          rw (← same) refl,
          inr ((eq_iff key "").0 unset, (eq_iff (getenv app_env "dev") "dev").0 dev),
        )
    | inr other ↦ absurd (refused (rw (unset, other) at h))
  ]
]
  where
    refused : none ≡ some secret → ⊥
    refused e = cc
