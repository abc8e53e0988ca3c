-- ===== src/Config/Tests.antt =====
-- A start in production with a key.
use ledger_x.Prelude.{◌⊎◌, ◌≡◌, str_eq, some, refl, false, String}
use ledger_x.Config.{start_auth_key, start_auth, signing_key, getenv}
use ledger_x.Service.Auth.{init_auth}

started_with : start_auth "prod" "k" ≡ some "k"
unfolding start_auth signing_key init_auth
started_with = refl

start_auth_key_example :
    let key : String = "k" in
    (str_eq key "" ≡ false) × ((key ≡ key) ⊎ ((key ≡ "") × (getenv "prod" "dev" ≡ "dev")))
start_auth_key_example = start_auth_key "prod" "k" "k" started_with
