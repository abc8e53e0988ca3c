-- ===== src/Transport/RateLimit.antt =====
-- internal/transport/http/ratelimit.go: the token bucket, with its script in Redis.
pub mod Bounds
pub mod Traffic
use ledger_x.Prelude.{
  ◌∷◌, ◌-◌, ◌+◌, ◌*◌, true, str_eq, some, none, min, ltb, if◌then◌else◌, false, [], String, Option,
  List, Bool, ℕ,
}
use Prim.Native.String.{◌++◌ as str_append}
use ledger_x.Repo.World.{unacknowledged, fine, failed, Fault}
use ledger_x.Prelude.Int.{ℤ, pos_part, pos, leb_ℤ}

pub record RateLimiter : Type 0 where
  pub capacity : ℤ
  pub rate : ℤ

unfoldable pub new_rate_limiter : ℤ → ℤ → RateLimiter
new_rate_limiter capacity rate =
    let capacity' =
      if leb_ℤ capacity (pos 0) then (if leb_ℤ rate (pos 0) then pos 1 else rate) else capacity in
    let rate' = if leb_ℤ rate (pos 0) then pos 1 else rate in
    record { capacity = capacity'; rate = rate' }

-- The values at "<key>:tokens" and "<key>:ts", which are always written together.
pub record Bucket : Type 0 where
  pub tokens : ℕ
  pub last_refill : ℕ

-- The script on one bucket, where capacity and rate are positive and `now` is a Unix time.
-- Subtraction stops at 0 as math.max(0, …) does.
abbrev pub stored : ℕ → ℕ → Option Bucket → Bucket
stored capacity now none = record { tokens = capacity; last_refill = now }
stored capacity now (some b) = b

unfoldable pub refilled : ℕ → ℕ → ℕ → Bucket → Bucket
refilled capacity rate now b =
    let refill = (now - b.last_refill) * rate in
    record {
      tokens = min capacity (b.tokens + refill);
      last_refill = if ltb 0 refill then now else b.last_refill;
    }

unfoldable pub take_token : Bucket → Bool × Bucket
take_token b = if ltb 0 b.tokens then (true, record b { tokens = b.tokens - 1 }) else (false, b)

unfoldable pub run_script : RateLimiter → ℕ → Option Bucket → Bool × Bucket
run_script rl now b =
    let capacity = pos_part rl.capacity in
    take_token (refilled capacity (pos_part rl.rate) now (stored capacity now b))

-- The buckets by key.
pub record Entry : Type 0 where
  pub key : String
  pub bucket : Bucket

abbrev pub get_bucket : String → List Entry → Option Bucket
get_bucket k [] = none
get_bucket k (e ∷ es) = if str_eq e.key k then some e.bucket else get_bucket k es

abbrev pub set_bucket : String → Bucket → List Entry → List Entry
set_bucket k b [] = record { key = k; bucket = b } ∷ []
set_bucket k b (e ∷ es) =
    if str_eq e.key k then record { key = k; bucket = b } ∷ es else e ∷ set_bucket k b es

-- What the middleware does with a request: 401, 503, 429, or the next handler. `remaining` is the
-- header X-RateLimit-Remaining.
pub data Verdict : Type 0 where
  unauthorized limiter_unavailable : Verdict
  too_many : ℕ → Verdict
  served : ℕ → Verdict

abbrev pub verdict : Bool × Bucket → Verdict
verdict (true, b) = served b.tokens
verdict (false, b) = too_many b.tokens

abbrev ran : String → List Entry → Bool × Bucket → Verdict × List Entry
ran k store r = (verdict r, set_bucket k r.1 store)

unfoldable pub allow : RateLimiter → Fault → String → ℕ → List Entry → Verdict × List Entry
allow rl fine k now store = ran k store (run_script rl now (get_bucket k store))
allow rl failed k now store = (limiter_unavailable, store)
allow rl unacknowledged k now store =
    (limiter_unavailable, (ran k store (run_script rl now (get_bucket k store))).1)

-- One request: the key that keyFn finds, when it comes, and how Redis answers.
pub record Arrival : Type 0 where
  pub key : Option String
  pub now : ℕ
  pub fault : Fault

unfoldable pub middleware : RateLimiter → Arrival → List Entry → Verdict × List Entry
middleware rl a store = elim a.key [
  | none ↦ (unauthorized, store)
  | some k ↦ allow rl a.fault (str_append "ratelimit:" k) a.now store
]
