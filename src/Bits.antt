-- ===== src/Bits.antt =====
-- byst/src/bits.rs: masks of low bits and the extraction of bits, for unsigned integers of `w` bits.
-- A panic is `none`.
pub mod Extract
use Prim.Native.Nat.{bit_and, bit_or}
use byst.Prelude.{
  ℕ, zero, suc, ◌*◌, ◌/◌, ◌%◌, ◌^◌, Bool, not, Option, some, ltb, ◌==◌, and_then, assert,
}

-- the loop of `bit_mask`: `(bit_mask << 1) | 1`, as often as there are bits
unfoldable pub mask_loop : ℕ → ℕ → ℕ → ℕ
mask_loop w zero mask = mask
mask_loop w (suc bits) mask = mask_loop w bits (bit_or (mask * 2 % 2 ^ w) 1)

-- `bit_mask`
unfoldable pub bit_mask : ℕ → ℕ → ℕ
unfolding mask_loop
bit_mask w bits = mask_loop w bits 0

-- `extract_bits`; a shift by the width or more is a panic.
unfoldable pub extract_bits : ℕ → ℕ → ℕ → ℕ → Option ℕ
unfolding bit_mask
extract_bits w value start bits =
    assert (ltb start w) (some (bit_and (value / 2 ^ start) (bit_mask w bits)))

-- `BitFieldExtract::extract` for an integer of `t` bits: the assertion, and `try_from` of the bits
unfoldable pub extract : ℕ → ℕ → ℕ → ℕ → ℕ → Option ℕ
unfolding extract_bits
extract w t value start bits =
    assert (ltb bits t)
      (and_then (extract_bits w value start bits) (λ v. assert (ltb v (2 ^ t)) (some v)))

-- `BitFieldExtract::extract` for `bool`
unfoldable pub extract_bool : ℕ → ℕ → ℕ → ℕ → Option Bool
unfolding extract_bits
extract_bool w value start bits =
    assert (bits == 1) (and_then (extract_bits w value start bits) (λ v. some (not (v == 0))))
