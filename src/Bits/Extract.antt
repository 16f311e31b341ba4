-- ===== src/Bits/Extract.antt =====
-- The bits that byst/src/bits.rs extracts, beside division and remainder.
use Prim.Native.Nat.{bit_or, digits, bit_and-bitwise, bit_or-bitwise}
use native.Mathlib.Nat.{
  pow-succ', mod-eq_of_lt, mod-lt, div-add-mod, mul_assoc, mul-add-mod_self_left, zero-mod,
}
use byst.Prelude.{
  ℕ, zero, suc, ◌+◌, ◌*◌, ◌/◌, ◌%◌, ◌^◌, ◌≤◌, ◌<◌, min, max, ◌≡◌, refl, sym, ap, ◌∙◌, some, arith,
  lt→ltb,
}
use byst.Bits.{mask_loop, bit_mask, extract_bits, extract}

-- `n` bits that are set
abbrev pub ones : ℕ → ℕ
ones zero = 0
ones (suc n) = ones n * 2 + 1

pub suc-ones : (n : ℕ) → suc (ones n) ≡ 2 ^ n
suc-ones zero = refl
suc-ones (suc n) = omega (arith, suc-ones n, pow-succ' 2 n)

-- Setting the lowest bit of an even number: the digits above it are kept.
or_digits : (fuel a : ℕ) → a ≤ fuel → digits (λ b. b) max fuel a 0 ≡ a
or_digits zero zero h = refl
or_digits zero (suc a) h = absurd (omega arith)
or_digits (suc fuel) zero h = refl
or_digits (suc fuel) (suc a) h = omega (arith, or_digits fuel (suc a / 2) (omega arith))

or_digits_one : (fuel a : ℕ) → a ≤ fuel → a % 2 ≡ 0 → digits (λ b. b) max fuel a 1 ≡ a + 1
or_digits_one zero a h e = omega arith
or_digits_one (suc fuel) zero h e = refl
or_digits_one (suc fuel) (suc a) h e = omega (arith, or_digits fuel (suc a / 2) (omega arith))

or_one : (a : ℕ) → a % 2 ≡ 0 → bit_or a 1 ≡ a + 1
or_one a e = omega (arith, bit_or-bitwise a 1, or_digits_one a a (omega arith) e)

-- The lowest bit of a remainder, and those above it.
mod-double : (a m : ℕ) → 0 < m → a % (2 * m) ≡ a / 2 % m * 2 + a % 2
mod-double a m h =
    let q = a / 2 / m in
    let r = a / 2 % m * 2 + a % 2 in
    ap (◌% (2 * m)) {x = a} {y = 2 * m * q + r}
      (omega (arith, div-add-mod (a / 2) m, mul_assoc 2 m q))
    ∙ mul-add-mod_self_left (2 * m) q r
    ∙ mod-eq_of_lt (omega (arith, mod-lt (a / 2) h))

positive_power : (k : ℕ) → 0 < 2 ^ k
positive_power k = omega (arith, suc-ones k)

-- The bits below a mask of ones.
and_ones : (fuel a k : ℕ) → a ≤ fuel → digits (λ b. 0) min fuel a (ones k) ≡ a % 2 ^ k
and_ones zero a k h = sym (ap (◌% 2 ^ k) {x = a} {y = 0} (omega arith) ∙ zero-mod (2 ^ k))
and_ones (suc fuel) zero k h = sym (zero-mod (2 ^ k))
and_ones (suc fuel) (suc a) zero h = omega (arith, and_ones fuel (suc a / 2) zero (omega arith))
and_ones (suc fuel) (suc a) (suc k) h =
    let i : digits (λ b. 0) min fuel (suc a / 2) ((ones k * 2 + 1) / 2) ≡ suc a / 2 % 2 ^ k =
      ap (digits (λ b. 0) min fuel (suc a / 2)) {x = (ones k * 2 + 1) / 2} (omega arith)
      ∙ and_ones fuel (suc a / 2) k (omega arith) in
    omega (arith, i, mod-double (suc a) (2 ^ k) (positive_power k))
    ∙ ap (suc a %◌) (sym (pow-succ' 2 k))

ones_mono : (a b : ℕ) → a ≤ b → ones a ≤ ones b
ones_mono zero b h = omega arith
ones_mono (suc a) zero h = absurd (omega arith)
ones_mono (suc a) (suc b) h = omega (arith, ones_mono a b (omega arith))

-- one round of the loop
mask_step : (w n : ℕ) → n < w → bit_or (ones n * 2 % 2 ^ w) 1 ≡ ones (suc n)
mask_step w n h =
    let k : ones n * 2 % 2 ^ w ≡ ones n * 2 =
      mod-eq_of_lt (omega (arith, ones_mono (suc n) w h, suc-ones w)) in
    ap (λ m. bit_or m 1) k ∙ or_one (ones n * 2) (omega arith)

-- A mask of no more bits than the width has: nothing is shifted out.
mask_loop_lem : (w bits set : ℕ) → set + bits ≤ w → mask_loop w bits (ones set) ≡ ones (set + bits)
unfolding mask_loop
mask_loop_lem w zero set h = ap ones {x = set} (omega arith)
mask_loop_lem w (suc bits) set h =
    ap (mask_loop w bits) (mask_step w set (omega arith))
    ∙ mask_loop_lem w bits (suc set) (omega arith)
    ∙ ap ones {x = suc set + bits} {y = set + suc bits} (omega arith)

bit_mask_lem : (w bits : ℕ) → bits ≤ w → bit_mask w bits ≡ ones bits
unfolding bit_mask
bit_mask_lem w bits h = mask_loop_lem w bits 0 (omega arith) ∙ ap ones {x = 0 + bits} (omega arith)

-- For a start inside the width, the bits from there.
pub extract_bits_lem :
    (w value start bits : ℕ)
    → start < w
    → bits ≤ w
    → extract_bits w value start bits ≡ some (value / 2 ^ start % 2 ^ bits)
unfolding extract_bits
extract_bits_lem w value start bits h k =
    rw (lt→ltb start w h, bit_mask_lem w bits k, bit_and-bitwise (value / 2 ^ start) (ones bits))
      (ap some (and_ones (value / 2 ^ start) (value / 2 ^ start) bits (omega arith)))

-- A field of fewer bits than the target type has, which is no wider than the source, extracted
-- from a start inside the source, is the number divided by `2 ^ start`, modulo `2 ^ bits`, which
-- fits into the bits.
pub extract_lem :
    (w t value start bits : ℕ)
    → start < w
    → bits < t
    → t ≤ w
    → (extract w t value start bits ≡ some (value / 2 ^ start % 2 ^ bits))
      × (value / 2 ^ start % 2 ^ bits < 2 ^ bits)
unfolding extract
extract_lem w t value start bits h k l =
    let v = value / 2 ^ start % 2 ^ bits in
    let b : v < 2 ^ bits = mod-lt (value / 2 ^ start) (positive_power bits) in
    let c : v < 2 ^ t =
      omega (arith, b, ones_mono bits t (omega arith), suc-ones bits, suc-ones t) in
    (
      rw (lt→ltb bits t k, extract_bits_lem w value start bits h (omega arith), lt→ltb v (2 ^ t) c)
          refl,
      b,
    )
