-- ===== src/Transport/RateLimit/Traffic.antt =====
-- The token bucket over any traffic: many keys, clocks that go back, and a Redis that fails.
use text.Mathlib.TextLemmas.{append_cancel_left}
use ledger_x.Prelude.{
  ◌≤◌, ◌-◌, ◌*◌, none, arith, ap, All, ◌≡◌, ◌∷◌, ◌+◌, true, str_eq, some, refl, inr, inl,
  if◌then◌else◌, false, eq_refl, eq_iff, [], String, Option, List, Bool-cases, Bool, ℕ,
}
use ledger_x.Transport.RateLimit.{
  str_append, verdict, unauthorized, too_many, run_script, limiter_unavailable, allow, set_bucket,
  served, middleware, get_bucket, Verdict, RateLimiter, Entry, Bucket, Arrival,
}
use ledger_x.Transport.RateLimit.Bounds.{script-Within, passed, Allows}
use ledger_x.Repo.World.{unacknowledged, fine, failed, Fault}
use ledger_x.Prelude.Int.{pos_part}

get_bucket-set_same :
    (k : String) (b : Bucket) (store : List Entry) → get_bucket k (set_bucket k b store) ≡ some b
get_bucket-set_same k b [] = rw (eq_refl k) refl
get_bucket-set_same k b (e ∷ es) = elim (Bool-cases (str_eq e.key k)) [
  | inl same ↦ rw same (rw (eq_refl k) refl)
  | inr other ↦ rw other (rw other (get_bucket-set_same k b es))
]

get_bucket-set_other :
    (j k : String) (b : Bucket) (store : List Entry)
    → str_eq j k ≡ false
    → get_bucket k (set_bucket j b store) ≡ get_bucket k store
get_bucket-set_other j k b [] h = rw h refl
get_bucket-set_other j k b (e ∷ es) h = elim (Bool-cases (str_eq e.key j)) [
  | inl same ↦
      let it : e.key ≡ j = (eq_iff e.key j).0 same in
      let differs : str_eq e.key k ≡ false = rw it h in rw (same, h, differs) refl
  | inr other ↦ rw other (step (str_eq e.key k) (get_bucket-set_other j k b es h))
]
  where
    step :
        (c : Bool) {o o' : Option Bucket}
        → o ≡ o'
        → (if c then some e.bucket else o) ≡ (if c then some e.bucket else o')
    step true p = refl
    step false p = p

-- A request of the client `k` that reached the next handler.
abbrev pub served_to : String → Option String → Verdict → ℕ
served_to k (some j) (served n) = if str_eq j k then 1 else 0
served_to k _ _ = 0

-- How many requests of the client `k` reach the next handler.
unfoldable pub count_served : RateLimiter → String → List Arrival → List Entry → ℕ
count_served rl k [] store = 0
count_served rl k (a ∷ later) store =
    served_to k a.key (middleware rl a store).0 + count_served rl k later (middleware rl a store).1

abbrev bucket_key : String → String
bucket_key k = str_append "ratelimit:" k

bucket_key_other :
    (j k : String) → str_eq j k ≡ false → str_eq (bucket_key j) (bucket_key k) ≡ false
bucket_key_other j k h = elim (Bool-cases (str_eq (bucket_key j) (bucket_key k))) [
  | inl same ↦
      let it : j ≡ k = append_cancel_left "ratelimit:" j k ((eq_iff _ _).0 same) in
      let equal : str_eq j k ≡ true = rw it (eq_refl k) in cc
  | inr other ↦ other
]

served_passed :
    (j k : String) (r : Bool × Bucket)
    → str_eq j k ≡ true
    → served_to k (some j) (verdict r) ≡ passed r.0
served_passed j k (true, b) h = rw h refl
served_passed j k (false, b) h = refl

served_other : (j k : String) (v : Verdict) → str_eq j k ≡ false → served_to k (some j) v ≡ 0
served_other j k unauthorized h = refl
served_other j k limiter_unavailable h = refl
served_other j k (too_many n) h = refl
served_other j k (served n) h = rw h refl

sub_add : (a b : ℕ) → a ≤ b → a + (b - a) ≤ b
sub_add a b h = omega arith

module _ (rl : RateLimiter) (k : String) (from until : ℕ) where
  abbrev rate : ℕ
  rate = pos_part rl.rate

  -- The client's bucket lets through `n` more at most.
  abbrev Left : ℕ → List Entry → Type 0
  Left n store = Allows rate until from n rl (get_bucket (bucket_key k) store)

  abbrev Step : ℕ → Option String → Verdict × List Entry → Type 0
  Step n j r = (m : ℕ) × ((served_to k j r.0 + m ≤ n) × Left m r.1)

  same_client :
      (f : Fault) (n now : ℕ) (j : String) (store : List Entry)
      → str_eq j k ≡ true
      → from ≤ now
      → now ≤ until
      → Left n store
      → Step n (some j) (allow rl f (bucket_key j) now store)
  unfolding allow
  same_client failed n now j store same start in_time h = (n, (omega arith, h))
  same_client fine n now j store same start in_time h =
      let it : j ≡ k = (eq_iff j k).0 same in
      let r = run_script rl now (get_bucket (bucket_key k) store) in
      let w =
        script-Within rate until rl n now from (get_bucket (bucket_key k) store) refl start in_time
          h in
      rw
        (
          served_passed j k (run_script rl now (get_bucket (bucket_key j) store)) same,
          it,
          get_bucket-set_same (bucket_key k) r.1 store,
        )
        (n - passed r.0, (sub_add (passed r.0) n w.0, w.1))
  same_client unacknowledged n now j store same start in_time h =
      let it : j ≡ k = (eq_iff j k).0 same in
      let r = run_script rl now (get_bucket (bucket_key k) store) in
      let w =
        script-Within rate until rl n now from (get_bucket (bucket_key k) store) refl start in_time
          h in
      rw (it, get_bucket-set_same (bucket_key k) r.1 store) (n - passed r.0, (omega arith, w.1))

  other_client :
      (f : Fault) (n now : ℕ) (j : String) (store : List Entry)
      → str_eq j k ≡ false
      → Left n store
      → Step n (some j) (allow rl f (bucket_key j) now store)
  unfolding allow
  other_client failed n now j store other h = (n, (omega arith, h))
  other_client fine n now j store other h =
      rw
        (
          served_other j k _ other,
          get_bucket-set_other (bucket_key j) (bucket_key k) _ store (bucket_key_other j k other),
        )
        (n, (omega arith, h))
  other_client unacknowledged n now j store other h =
      rw (get_bucket-set_other (bucket_key j) (bucket_key k) _ store (bucket_key_other j k other))
        (n, (omega arith, h))

  middleware-Step :
      (n : ℕ) (key : Option String) (now : ℕ) (f : Fault) (store : List Entry)
      → from ≤ now
      → now ≤ until
      → Left n store
      → Step n key (middleware rl (record { key = key; now = now; fault = f }) store)
  unfolding middleware
  middleware-Step n none now f store start in_time h = (n, (omega arith, h))
  middleware-Step n (some j) now f store start in_time h = elim (Bool-cases (str_eq j k)) [
    | inl same ↦ same_client f n now j store same start in_time h
    | inr other ↦ other_client f n now j store other h
  ]

  count_within :
      (later : List Arrival) (n : ℕ) (store : List Entry)
      → All (λ (a : Arrival). (from ≤ a.now) × (a.now ≤ until)) later
      → Left n store
      → count_served rl k later store ≤ n
  unfolding count_served
  count_within [] n store times h = omega arith
  count_within (a ∷ later) n store ((start, in_time), times) h =
      let s = middleware-Step n a.key a.now a.fault store start in_time h in
      let rest = count_within later s.0 (middleware rl a store).1 times s.1.1 in
      let taken = s.1.0 in omega arith

-- Of any requests of any clients that arrive between two times, a client that has no bucket yet
-- gets at most capacity + rate * (the seconds between) through, however the clocks go and Redis
-- answers.
pub count_served_bound :
    (rl : RateLimiter) (k : String) (from until : ℕ) (later : List Arrival) (store : List Entry)
    → from ≤ until
    → get_bucket (bucket_key k) store ≡ none
    → All (λ (a : Arrival). (from ≤ a.now) × (a.now ≤ until)) later
    → count_served rl k later store ≤ pos_part rl.capacity + pos_part rl.rate * (until - from)
count_served_bound rl k from until later store order absent times =
    count_within rl k from until later _ store times (rw absent (span (pos_part rl.rate)))
  where
    span :
        (r : ℕ)
        → pos_part rl.capacity + r * until ≤ pos_part rl.capacity + r * (until - from) + r * from
    span r =
        let whole : until ≡ until - from + from = omega arith in
        let product : r * until ≡ r * (until - from + from) = ap (λ x. r * x) whole in omega arith
