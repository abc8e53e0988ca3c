-- ===== src/Transport/Cors.antt =====
-- internal/transport/http/cors.go
use ledger_x.Prelude.{
  ◌≡◌, true, sym, str_eq, some, not, none, inr, inl, if◌then◌else◌, false, String, Option, List,
  Bool-cases, Bool,
}
use ledger_x.Prelude.Select.{exists_row}

-- strings.Split at commas with TrimSpace of each part, and strings.EqualFold
pub record CorsStrings : Type 0 where
  pub entries : String → List String
  pub equal_fold : String → String → Bool

-- Access-Control-Allow-Origin, and whether the handler behind is called
pub record CorsReply : Type 0 where
  pub allow_origin : Option String
  pub forwarded : Bool

-- `allowed` is CORS_ALLOWED_ORIGINS, trimmed; "" allows none.
abbrev pub allow_of : CorsStrings → String → String → String
allow_of c allowed origin =
    if str_eq allowed "*"
    then "*"
    else if str_eq allowed ""
    then origin
    else if exists_row (λ (o : String). c.equal_fold o origin) (c.entries allowed)
    then origin
    else ""

unfoldable pub cors_middleware : CorsStrings → String → String → String → CorsReply
cors_middleware c allowed origin method =
    if str_eq origin "" then record { allow_origin = none; forwarded = true } else record {
      allow_origin =
          if str_eq (allow_of c allowed origin) "" then none else some (allow_of c allowed origin);
      forwarded = not (str_eq method "OPTIONS");
    }

some_origin : {k l : String} → some k ≡ some l → k ≡ l
some_origin e = cc

-- A listed origin is the only one that is allowed.
pub cors_listed :
    (c : CorsStrings) (allowed origin method reply : String)
    → str_eq allowed "*" ≡ false
    → str_eq allowed "" ≡ false
    → (cors_middleware c allowed origin method).allow_origin ≡ some reply
    → (reply ≡ origin)
      × (exists_row (λ (o : String). c.equal_fold o origin) (c.entries allowed) ≡ true)
unfolding cors_middleware
cors_listed c allowed origin method reply star unset h = elim (Bool-cases (str_eq origin "")) [
  | inl absent ↦ absurd (no_header (rw absent at h))
  | inr present ↦
      elim (Bool-cases (exists_row (λ (o : String). c.equal_fold o origin) (c.entries allowed))) [
        | inl listed_there ↦ (
          sym (some_origin (rw present at (rw listed_there at (rw (present, star, unset) at h)))),
          listed_there,
        )
        | inr missing ↦ absurd (no_header (rw missing at (rw (present, star, unset) at h)))
      ]
]
  where
    no_header : none ≡ some reply → ⊥
    no_header e = cc
