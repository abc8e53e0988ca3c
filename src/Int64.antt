-- ===== src/Int64.antt =====
-- Go's int64: arithmetic on 64-bit two's complement values, held as integers.
use ledger_x.Prelude.{ℕ, ◌-◌, ◌%◌, ◌^◌, ◌≤◌, ◌<◌, ◌≡◌, ◌≢◌, refl, ap, arith, ltb, if◌then◌else◌}
use ledger_x.Prelude.Int.{ℤ, pos, negsuc, pos_part, neg_part, ◌+ℤ◌, ◌-ℤ◌}

-- math.MinInt64, math.MaxInt64
abbrev pub min_int64 : ℤ
min_int64 = negsuc (2 ^ 63 - 1)

abbrev pub max_int64 : ℤ
max_int64 = pos (2 ^ 63 - 1)

-- The 64 bits of an integer, and the value that they stand for.
unfoldable pub bits : ℤ → ℕ
bits (pos n) = n % 2 ^ 64
bits (negsuc n) = 2 ^ 64 - 1 - n % 2 ^ 64

unfoldable pub of_bits : ℕ → ℤ
of_bits b = if ltb b (2 ^ 63) then pos b else negsuc (2 ^ 64 - 1 - b)

unfoldable pub wrap64 : ℤ → ℤ
unfolding bits of_bits
wrap64 a = of_bits (bits a)

-- The values that an int64 holds.
abbrev pub InRange : ℤ → Type 0
InRange a = (pos_part a < 2 ^ 63) × (neg_part a ≤ 2 ^ 63)

unfoldable pub add64 : ℤ → ℤ → ℤ
unfolding wrap64 ◌+ℤ◌
add64 a b = wrap64 (a +ℤ b)

unfoldable pub neg64 : ℤ → ℤ
unfolding wrap64 ◌-ℤ◌
neg64 a = wrap64 (pos 0 -ℤ a)

wrap64-InRange : (a : ℤ) → InRange (wrap64 a)
unfolding wrap64
wrap64-InRange (pos n) = ground arith
wrap64-InRange (negsuc n) = ground arith

pub wrap64_id : (a : ℤ) → InRange a → wrap64 a ≡ a
unfolding wrap64
wrap64_id (pos n) h = ground arith
wrap64_id (negsuc n) h = ground arith

-- Wrapping is a congruence: an intermediate overflow does not change the final bits.
pub wrap64-+ℤ-wrap64 : (a b : ℤ) → wrap64 (wrap64 a +ℤ b) ≡ wrap64 (a +ℤ b)
unfolding wrap64 ◌+ℤ◌
wrap64-+ℤ-wrap64 (pos m) (pos n) = ground arith
wrap64-+ℤ-wrap64 (pos m) (negsuc n) = ground arith
wrap64-+ℤ-wrap64 (negsuc m) (pos n) = ground arith
wrap64-+ℤ-wrap64 (negsuc m) (negsuc n) = ground arith

min-of-suc : (m : ℕ) → m ≡ 2 ^ 63 - 1 → negsuc m ≡ min_int64
min-of-suc m e = ap negsuc e

neg-InRange : (a : ℤ) → InRange a → a ≢ min_int64 → InRange (pos 0 -ℤ a)
unfolding ◌-ℤ◌
neg-InRange (pos m) h n = ground arith
neg-InRange (negsuc m) h n = ground (arith, min-of-suc m)

pub neg64_lem : (a : ℤ) → InRange a → a ≢ min_int64 → neg64 a ≡ pos 0 -ℤ a
neg64_lem a h n = unfold neg64 in wrap64_id (pos 0 -ℤ a) (neg-InRange a h n)

-- The one value without a negative is its own negative.
pub neg64_min : neg64 min_int64 ≡ min_int64
unfolding neg64
neg64_min = refl
