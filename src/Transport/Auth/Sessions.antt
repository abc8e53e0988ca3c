-- ===== src/Transport/Auth/Sessions.antt =====
-- Who gets a token, and whom the middleware takes its bearer for.
use text.Mathlib.TextPositions.{starts_with-append, len-append, slice-append_right}
use Prim.Native.String.{◌++◌ as str_append}
use ledger_x.Service.Auth.{Claims, parse_jwt, generate_jwt, expiry, AuthEnv}
use ledger_x.Prelude.{
  ap, Bool, ◌∙◌, eq_refl, List, ◌++◌, ◌⊎◌, ◌≤◌, ◌≡◌, ◌∷◌, ◌^◌, ◌<◌, ◌/◌, ℕ, true, str_eq, some,
  refl, none, inr, inl, false, [], String, Option, Bool-cases,
}
use ledger_x.Transport.Auth.{
  cut_prefix, token_reply, register, normalized, login, is_valid, checked, auth_middleware,
  Credentials,
}
use ledger_x.Repo.Models.{User, Database}
use ledger_x.Repo.World.{
  unacknowledged, one_row, next_fault, later_faults, fine, failed, call, answer, World, Result,
  Fault,
}
use ledger_x.Transport.Handlers.{replied, rejected, Handler}
use ledger_x.Repo.Users.{insert_user, has_email, get_user_by_email, find_by_email, create_user}
use ledger_x.Prelude.Select.{find_row, find_row-append_right, find_row-append_left, exists_row}
use ledger_x.Service.Transactions.Retry.{quiet}

-- What the libraries document: bcrypt accepts the password that it hashed, and a signed token is
-- accepted until it expires and carries the id, which a float64 holds exactly up to 2^53.
pub record IsAuthLibrary (a : AuthEnv) (secret : String) : Type 0 where
  pub compare_generated :
      (salt : ℕ) (password hash : String)
      → a.bcrypt_generate salt password ≡ some hash
      → a.bcrypt_compare hash password ≡ true
  pub sign_total : (c : Claims) → (token : String) × (a.sign c secret ≡ some token)
  pub verify_signed :
      (c : Claims) (token : String) (now : ℕ)
      → a.sign c secret ≡ some token
      → now < c.exp
      → 0 < c.user_id
      → c.user_id ≤ 2 ^ 53
      → a.verify now token secret
        ≡ some (some (record { is_positive = true; as_int64 = c.user_id }))

cut_bearer : (token : String) → cut_prefix "Bearer " (str_append "Bearer " token) ≡ some token
cut_bearer token =
    rw (starts_with-append "Bearer " token, len-append "Bearer " token)
      (ap some (slice-append_right "Bearer " token))

no_reply : {A : Type 0} (n status : ℕ) (a : A) → rejected n ≡ replied status a → ⊥
no_reply n status a h = cc

-- No user of this email has this password.
abbrev pub IsDenied : AuthEnv → Credentials → Database → Type 0
IsDenied a c d =
    (find_by_email (normalized a c.email) d.users ≡ none)
    ⊎ ((u : User) × ((find_by_email (normalized a c.email) d.users ≡ some u)
          × (a.bcrypt_compare u.password_hash c.password ≡ false)))

-- The user whose email and password these are, and whose token it is.
pub record IsOwnToken (a : AuthEnv) (secret : String) (now : ℕ) (c : Credentials) (d : Database)
    (token : String) : Type 0 where
  pub row : User
  pub row_is : find_by_email (normalized a c.email) d.users ≡ some row
  pub password_is : a.bcrypt_compare row.password_hash c.password ≡ true
  pub token_is : generate_jwt a secret now row.id ≡ some token

module _ (a : AuthEnv) (secret : String) (now : ℕ) (c : Credentials) (w : World) where
  abbrev looked_up : Fault → Result User × World
  looked_up f =
      answer f (λ v. one_row (find_by_email (normalized a c.email) v.db.users) v)
        (record w { faults = later_faults w.faults })

  fault_denied :
      (f : Fault)
      → IsDenied a c w.db
      → (checked a secret now c.password (looked_up f)).0 ≡ rejected 401
  unfolding answer
  fault_denied fine (inl missing) = rw missing refl
  fault_denied fine (inr (u, (row, wrong))) = rw row (rw wrong refl)
  fault_denied failed h = refl
  fault_denied unacknowledged h = refl

  -- Under any faults, Login answers 401 alike where no user has the normalized email and where
  -- the stored hash does not accept the password.
  pub login_denied : IsDenied a c w.db → (login a secret now (some c) w).0 ≡ rejected 401
  unfolding login get_user_by_email call
  login_denied h = fault_denied (next_fault w.faults) h

  module _ (status : ℕ) (token : String) where
    token_of :
        (o : Option String) (v : World)
        → (token_reply 200 o v).0 ≡ replied status token
        → o ≡ some token
    token_of none v h = absurd (no_reply _ status token h)
    token_of (some t) v h = let same : t ≡ token = cc in rw same refl

    row_checked :
        (o : Option User) (v : World)
        → find_by_email (normalized a c.email) w.db.users ≡ o
        → (checked a secret now c.password (one_row o v)).0 ≡ replied status token
        → IsOwnToken a secret now c w.db token
    row_checked none v row h = absurd (no_reply _ status token h)
    row_checked (some u) v row h = elim (Bool-cases (a.bcrypt_compare u.password_hash c.password)) [
      | inl right ↦ record {
        row = u;
        row_is = row;
        password_is = right;
        token_is = token_of (generate_jwt a secret now u.id) v (rw right at h);
      }
      | inr wrong ↦ absurd (no_reply 401 status token (rw wrong at h))
    ]

    fault_checked :
        (f : Fault)
        → (checked a secret now c.password (looked_up f)).0 ≡ replied status token
        → IsOwnToken a secret now c w.db token
    unfolding answer
    fault_checked fine h = row_checked (find_by_email (normalized a c.email) w.db.users) _ refl h
    fault_checked failed h = absurd (no_reply _ status token h)
    fault_checked unacknowledged h = absurd (no_reply _ status token h)

    -- Under any faults, Login answers a token only for the user of the normalized email whose
    -- stored hash accepts the password, and the token is made for that user's id.
    pub login_own :
        (login a secret now (some c) w).0 ≡ replied status token
        → IsOwnToken a secret now c w.db token
    unfolding login get_user_by_email call
    login_own h = fault_checked (next_fault w.faults) h

appended_row :
    (p : User → Bool) (us more : List User) (u : User)
    → exists_row p us ≡ false
    → p u ≡ true
    → find_row p ((us ++ u ∷ []) ++ more) ≡ some u
appended_row p us more u fresh h =
    let last_one : find_row p (u ∷ []) ≡ some u = rw h refl in
    find_row-append_left p (us ++ u ∷ []) more u
      (find_row-append_right p us (u ∷ []) fresh ∙ last_one)

module _ (a : AuthEnv) (secret : String) (laws : IsAuthLibrary a secret)
    (keyed : str_eq secret "" ≡ false) where
  -- A token is made, and leads the middleware back to the id until it expires.
  session :
      {A : Type 0} (uid now later : ℕ) (k : Option ℕ → Handler A) (w : World)
      → 0 < uid
      → uid ≤ 2 ^ 53
      → later / 1000000000 < expiry now
      → (token : String) × ((generate_jwt a secret now uid ≡ some token)
          × (auth_middleware a secret later (str_append "Bearer " token) k w ≡ k (some uid) w))
  unfolding generate_jwt auth_middleware parse_jwt
  session uid now later k w positive exact early =
      let (token, signed) = laws.sign_total (record { user_id = uid; exp = expiry now }) in
      (
        token,
        (
          rw (keyed, signed) refl,
          rw (cut_bearer token) (
              rw
                (
                  keyed,
                  laws.verify_signed (record { user_id = uid; exp = expiry now }) token
                      (later / 1000000000) signed early positive exact,
                )
                refl),
        ),
      )

  registered_row :
      (now salt : ℕ) (c : Credentials) (hash : String) (w : World)
      → w.faults ≡ []
      → is_valid a (normalized a c.email) c.password ≡ true
      → a.bcrypt_generate salt c.password ≡ some hash
      → exists_row (has_email (normalized a c.email)) w.db.users ≡ false
      → (register a secret now salt (some c) w).1.db.users
        ≡ w.db.users
          ++ record {
            id = w.seqs.users;
            email = normalized a c.email;
            password_hash = hash;
            created_at = w.now;
          }
            ∷ []
  unfolding register create_user insert_user call answer
  registered_row now salt c hash w quiet valid hashed fresh =
      rw (valid, hashed) (rw quiet (rw fresh (kept (generate_jwt a secret now w.seqs.users) _)))
    where
      kept : (o : Option String) (v : World) → (token_reply 201 o v).1.db.users ≡ v.db.users
      kept none v = refl
      kept (some token) v = refl

  login_runs :
      (then : ℕ) (c : Credentials) (u : User) (token : String) (v : World)
      → v.faults ≡ []
      → find_by_email (normalized a c.email) v.db.users ≡ some u
      → a.bcrypt_compare u.password_hash c.password ≡ true
      → generate_jwt a secret then u.id ≡ some token
      → (login a secret then (some c) v).0 ≡ replied 200 token
  unfolding login get_user_by_email call answer
  login_runs then c u token v calm row right made = rw calm (rw row (rw (right, made) refl))

  -- When Register without faults takes a new email and a valid password, a later Login without
  -- faults with an email that normalizes to the same and the same password, after any further
  -- users have registered, answers a token that AuthMiddleware takes for the new user until it
  -- expires, given what bcrypt and JWT document, a signing key and an id in 1 .. 2^53.
  pub register-login :
      {A : Type 0} (now then later salt : ℕ) (c c' : Credentials) (hash : String) (w v : World)
      (more : List User) (k : Option ℕ → Handler A)
      → w.faults ≡ []
      → is_valid a (normalized a c.email) c.password ≡ true
      → a.bcrypt_generate salt c.password ≡ some hash
      → exists_row (has_email (normalized a c.email)) w.db.users ≡ false
      → 0 < w.seqs.users
      → w.seqs.users ≤ 2 ^ 53
      → v.faults ≡ []
      → v.db.users ≡ (register a secret now salt (some c) w).1.db.users ++ more
      → normalized a c'.email ≡ normalized a c.email
      → c'.password ≡ c.password
      → later / 1000000000 < expiry then
      → (token : String) × (((login a secret then (some c') v).0 ≡ replied 200 token)
          × (auth_middleware a secret later (str_append "Bearer " token) k v
              ≡ k (some w.seqs.users) v))
  register-login now then later salt c c' hash w v more k unfaulted valid hashed fresh positive
        exact calm users email password early =
      let row : User = record {
        id = w.seqs.users;
        email = normalized a c.email;
        password_hash = hash;
        created_at = w.now;
      } in
      let found_row : find_by_email (normalized a c'.email) v.db.users ≡ some row =
        rw (email, users, registered_row now salt c hash w unfaulted valid hashed fresh)
          (appended_row (has_email (normalized a c.email)) w.db.users more row fresh
            (eq_refl (normalized a c.email))) in
      let right : a.bcrypt_compare hash c'.password ≡ true =
        rw password (laws.compare_generated salt c.password hash hashed) in
      let (token, (made, accepted)) = session w.seqs.users then later k v positive exact early in
      (token, (login_runs then c' row token v calm found_row right made, accepted))
