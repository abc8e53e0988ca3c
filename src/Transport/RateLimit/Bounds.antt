-- ===== src/Transport/RateLimit/Bounds.antt =====
-- What the token bucket lets through.
use native.Mathlib.Nat.{mul-le-mul_left}
use ledger_x.Prelude.{
  refl, ◌⊎◌, ◌≡◌, leb, ◌-◌, some, none, ltb, inr, inl, if◌then◌else◌, Option, Bool-cases, ◌≤◌, ◌<◌,
  ◌+◌, ◌*◌, true, false, arith, Bool, ℕ,
}
use ledger_x.Transport.RateLimit.{
  run_script, RateLimiter, take_token, refilled, new_rate_limiter, Bucket,
}
use ledger_x.Prelude.Int.{ℤ, pos_part}

-- NewRateLimiter gives a positive capacity and a positive rate for every pair of arguments.
pub new_rate_limiter_lem :
    (capacity rate : ℤ)
    → let rl = new_rate_limiter capacity rate in (0 < pos_part rl.capacity) × (0 < pos_part rl.rate)
unfolding new_rate_limiter
new_rate_limiter_lem capacity rate = (ground arith, ground arith)

-- 1 for a request that is let through.
abbrev pub passed : Bool → ℕ
passed true = 1
passed false = 0

refill_after :
    (rate now last k : ℕ)
    → now ≡ k + last
    → k * rate + rate * last ≤ rate * (if ltb 0 (k * rate) then now else last)
refill_after rate now last k h = go (Bool-cases (ltb 0 (k * rate)))
  where
    whole : k * rate + rate * last ≡ rate * now
    whole = rw h (omega arith)

    go :
        (ltb 0 (k * rate) ≡ true) ⊎ (ltb 0 (k * rate) ≡ false)
        → k * rate + rate * last ≤ rate * (if ltb 0 (k * rate) then now else last)
    go (inl e) = let paid : k * rate + rate * last ≤ rate * now = omega (arith, whole) in rw e paid
    go (inr e) =
        let nothing : k * rate ≤ 0 = ground arith in
        let paid : k * rate + rate * last ≤ rate * last = omega arith in rw e paid

-- What a refill adds is paid by the time that it covers.
refill_bound :
    (rate now last : ℕ)
    → (now - last) * rate + rate * last ≤ rate * (if ltb 0 ((now - last) * rate) then now else last)
refill_bound rate now last = go (Bool-cases (leb last now))
  where
    go :
        (leb last now ≡ true) ⊎ (leb last now ≡ false)
        → (now - last) * rate + rate * last
          ≤ rate * (if ltb 0 ((now - last) * rate) then now else last)
    go (inl e) = refill_after rate now last (now - last) (ground arith)
    go (inr e) =
        let nothing : now - last ≡ 0 = ground arith in
        let none_added : (now - last) * rate ≡ 0 = rw nothing (omega arith) in
        let idle : ltb 0 ((now - last) * rate) ≡ false = rw none_added refl in
        let paid : (now - last) * rate + rate * last ≤ rate * last = omega arith in rw idle paid

refilled_bound :
    (capacity rate now : ℕ) (b : Bucket)
    → (refilled capacity rate now b).tokens + rate * b.last_refill
      ≤ b.tokens + rate * (refilled capacity rate now b).last_refill
unfolding refilled
refilled_bound capacity rate now b = let h = refill_bound rate now b.last_refill in omega arith

-- The time of a bucket never goes back, and is no later than the request.
refilled_last :
    (capacity rate now until : ℕ) (b : Bucket)
    → now ≤ until
    → b.last_refill ≤ until
    → (refilled capacity rate now b).last_refill ≤ until
unfolding refilled
refilled_last capacity rate now until b h k = ground arith

-- A bucket that lets through `n` more requests at most until the time `until`.
module _ (rate until : ℕ) where
  unfoldable pub Within : ℕ → Bucket → Type 0
  Within n b = (b.tokens + rate * until ≤ n + rate * b.last_refill) × (b.last_refill ≤ until)

  taken-Within :
      (n : ℕ) (b : Bucket)
      → Within n b
      → let r = take_token b in (passed r.0 ≤ n) × Within (n - passed r.0) r.1
  unfolding Within take_token
  taken-Within n b (h, k) = go (Bool-cases (ltb 0 b.tokens))
    where
      go :
          (ltb 0 b.tokens ≡ true) ⊎ (ltb 0 b.tokens ≡ false)
          → let r = take_token b in (passed r.0 ≤ n) × Within (n - passed r.0) r.1
      go (inl e) =
          let time : rate * b.last_refill ≤ rate * until = mul-le-mul_left rate k in
          let some_left : 0 < b.tokens = ground arith in rw e (omega arith, (omega arith, k))
      go (inr e) = rw e (omega arith, (omega arith, k))

  refilled-Within :
      (capacity n now : ℕ) (b : Bucket)
      → now ≤ until
      → Within n b
      → Within n (refilled capacity rate now b)
  unfolding Within
  refilled-Within capacity n now b in_time (h, k) =
      let paid = refilled_bound capacity rate now b in
      (omega arith, refilled_last capacity rate now until b in_time k)

  -- A key without a bucket starts full at the time of its first request.
  abbrev pub Allows : ℕ → ℕ → RateLimiter → Option Bucket → Type 0
  Allows from n rl none = pos_part rl.capacity + rate * until ≤ n + rate * from
  Allows from n rl (some b) = Within n b

  pub script-Within :
      (rl : RateLimiter) (n now from : ℕ) (o : Option Bucket)
      → pos_part rl.rate ≡ rate
      → from ≤ now
      → now ≤ until
      → Allows from n rl o
      → let r = run_script rl now o in (passed r.0 ≤ n) × Within (n - passed r.0) r.1
  unfolding run_script Within
  script-Within rl n now from none same start in_time h =
      let first : rate * from ≤ rate * now = mul-le-mul_left rate start in
      rw same (
        taken-Within n _
          (refilled-Within (pos_part rl.capacity) n now _ in_time (omega arith, in_time)))
  script-Within rl n now from (some b) same start in_time h =
      rw same (taken-Within n _ (refilled-Within (pos_part rl.capacity) n now b in_time h))
