-- ===== src/Transport/Auth/Tests.antt =====
-- Registering with the sample world, with libraries that keep passwords and tokens as they are.
use Prim.Native.String.{◌++◌ as str_append}
use Prim.Native.String.{len}
use text.Mathlib.TextPositions.{len-append}
use mathlib.Core.List.{append-nil}
use ledger_x.Service.Auth.{Claims, generate_jwt, AuthEnv}
use ledger_x.Transport.Auth.{register, me, auth_middleware, login, Credentials}
use ledger_x.Prelude.{
  ◌∙◌, ℕ, zero, sym, suc, eq_refl, arith, [], String, ◌≡◌, true, str_eq, some, refl, inl,
}
use ledger_x.Transport.Auth.Sessions.{
  register-login, login_own, IsOwnToken, IsAuthLibrary, login_denied,
}
use ledger_x.Transport.Handlers.{replied, rejected}
use ledger_x.Service.Samples.{sample_db, sample_world}
use ledger_x.Repo.World.{call, answer, World}
use ledger_x.Repo.Users.{insert_user, get_user_by_email, create_user}

-- A token spells the id with as many letters.
abbrev unary : ℕ → String
unary zero = ""
unary (suc n) = str_append "a" (unary n)

len-unary : (n : ℕ) → len (unary n) ≡ n
len-unary zero = refl
len-unary (suc n) = len-append "a" (unary n) ∙ rw (len-unary n) (omega arith)

abbrev sample_auth : AuthEnv
sample_auth = record {
  bcrypt_generate = λ salt password. some password;
  bcrypt_compare = λ hash password. str_eq hash password;
  sign = λ c secret. some (unary c.user_id);
  verify = λ now token secret. some (some (record { is_positive = true; as_int64 = len token }));
  to_lower = λ s. s;
  trim_space = λ s. s;
  contains_at = λ s. true;
}

signed_id :
    (c : Claims) (token : String) → some (unary c.user_id) ≡ some token → len token ≡ c.user_id
signed_id c token h = let same : unary c.user_id ≡ token = cc in rw (← same) (len-unary c.user_id)

sample-IsAuthLibrary : IsAuthLibrary sample_auth "key"
sample-IsAuthLibrary = record {
  compare_generated =
      λ salt password hash h. let same : password ≡ hash = cc in rw (← same) (eq_refl password);
  sign_total = λ c. (unary c.user_id, refl);
  verify_signed = λ c token now h early positive exact. rw (signed_id c token h) refl;
}

abbrev new_user : Credentials
new_user = record { email = "new@x.io"; password = "longpass" }

abbrev registered_world : World
registered_world = (register sample_auth "key" 0 0 (some new_user) sample_world).1

registered_world-calm : registered_world.faults ≡ []
unfolding register generate_jwt create_user insert_user call answer
registered_world-calm = refl

register-login_example :
    (token : String) × (((login sample_auth "key" 0 (some new_user) registered_world).0
        ≡ replied 200 token)
      × (auth_middleware sample_auth "key" 0 (str_append "Bearer " token) me registered_world
          ≡ me (some 3) registered_world))
register-login_example =
    register-login sample_auth "key" sample-IsAuthLibrary refl 0 0 0 0 new_user new_user "longpass"
      sample_world registered_world [] me refl refl refl refl (ground arith) (ground arith)
      registered_world-calm (sym (append-nil _)) refl refl (ground arith)

login_denied_example : (login sample_auth "key" 0 (some new_user) sample_world).0 ≡ rejected 401
login_denied_example = login_denied sample_auth "key" 0 new_user sample_world (inl refl)

abbrev old_user : Credentials
old_user = record { email = "u@x.io"; password = "h" }

old_login : (login sample_auth "key" 0 (some old_user) sample_world).0 ≡ replied 200 "a"
unfolding login get_user_by_email generate_jwt call answer
old_login = refl

login_own_example : IsOwnToken sample_auth "key" 0 old_user sample_db "a"
login_own_example = login_own sample_auth "key" 0 old_user sample_world 200 "a" old_login
