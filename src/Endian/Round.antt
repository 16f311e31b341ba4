-- ===== src/Endian/Round.antt =====
-- Integers of byst/src/endianness.rs, written and then read.
use byst.Prelude.{
  ℕ, zero, suc, ◌+◌, ◌*◌, ◌/◌, ◌<◌, ◌≡◌, refl, ap, ◌∙◌, true, List, [], ◌∷◌, ◌++◌, arith, length,
  take, drop, length-append, take-front, drop-front, ret,
}
use mathlib.Core.List.{reverse_aux, reverse-reverse}
use byst.Io.Interface.{BufReader, BufWriter}
use byst.Io.Laws.{IsCursor, IsBufWriter}
use byst.Io.Slice.{slice_cursor}
use byst.Io.Derived.{write_buf_lem, read_byte_array_lem}
use byst.Endian.{
  Endianness, big, little, to_le_bytes, from_le_bytes, encode, decode, write, read, decoded,
}

-- `256 ^ n`, one factor per byte
abbrev pub bound : ℕ → ℕ
bound zero = 1
bound (suc n) = 256 * bound n

from_le_bytes-to_le_bytes : (n v : ℕ) → v < bound n → from_le_bytes (to_le_bytes n v) ≡ v
unfolding from_le_bytes to_le_bytes
from_le_bytes-to_le_bytes zero v h = omega arith
from_le_bytes-to_le_bytes (suc n) v h =
    omega (arith, from_le_bytes-to_le_bytes n (v / 256) (omega arith))

length-to_le_bytes : (n v : ℕ) → length (to_le_bytes n v) ≡ n
unfolding to_le_bytes
length-to_le_bytes zero v = refl
length-to_le_bytes (suc n) v = ap suc (length-to_le_bytes n (v / 256))

length-reverse_aux : (xs ys : List ℕ) → length (reverse_aux xs ys) ≡ length xs + length ys
length-reverse_aux [] ys = omega arith
length-reverse_aux (x ∷ xs) ys = length-reverse_aux xs (x ∷ ys) ∙ omega arith

pub length-encode : (e : Endianness) (n v : ℕ) → length (encode e n v) ≡ n
unfolding encode
length-encode big n v =
    length-reverse_aux (to_le_bytes n v) [] ∙ omega (arith, length-to_le_bytes n v)
length-encode little n v = length-to_le_bytes n v

pub decode-encode : (e : Endianness) (n v : ℕ) → v < bound n → decode e (encode e n v) ≡ v
unfolding encode decode
decode-encode big n v h =
    ap from_le_bytes (reverse-reverse (to_le_bytes n v)) ∙ from_le_bytes-to_le_bytes n v h
decode-encode little n v h = from_le_bytes-to_le_bytes n v h

module _ {W S V : Type 0} {w : BufWriter W} {r : BufReader S V} (lw : IsBufWriter w)
    (lr : IsCursor r) where
  open lw use {before, fits}
  open lr use {contents}

  -- An unsigned integer of `n` bytes, in either byte order, is written whole where its bytes fit
  -- into a writer that keeps its contract, which adds them to the bytes before the cursor; and a
  -- reader that keeps its contract and has those bytes first reads the integer, and has the rest
  -- left.
  pub read-write :
      (e : Endianness) (n v : ℕ) (d : W) (s : S) (rest : List ℕ)
      → v < bound n
      → lw.valid d
      → fits d n ≡ true
      → lr.valid s
      → contents s ≡ encode e n v ++ rest
      → ((d' : W) × (write w e n v d ≡ ret tt d') × (before d' ≡ before d ++ encode e n v))
        × ((s' : S) × (read r e n s ≡ ret v s') × (contents s' ≡ rest))
  unfolding write read slice_cursor
  read-write e n v d s rest h vd f us k =
      let l : length (encode e n v) ≡ n = length-encode e n v in
      let (d', goes, _, b, _) =
        write_buf_lem lw slice_cursor d (encode e n v) vd tt (ap (fits d) l ∙ f) in
      let (s', gets, _, c) =
        read_byte_array_lem lr n s us
          (omega (arith, l, ap length k, length-append (encode e n v) rest)) in
      (
        (d', goes, b),
        (
          s',
          ap (decoded e) gets
              ∙ ap (λ xs. ret (decode e xs) s') (ap (take n) k ∙ take-front n (encode e n v) rest l)
              ∙ ap (λ x. ret x s') (decode-encode e n v h),
          c ∙ ap (drop n) k ∙ drop-front n (encode e n v) rest l,
        ),
      )
