-- ===== src/Endian.antt =====
-- byst/src/endianness.rs: unsigned integers of `n` bytes, in big and little endian.
pub mod Round
use byst.Prelude.{
  ℕ, zero, suc, ◌+◌, ◌*◌, ◌/◌, ◌%◌, List, [], ◌∷◌, reverse, Outcome, ret, fail, abort,
}
use byst.Io.Interface.{End, Full, BufReader, BufWriter}
use byst.Io.Slice.{slice_reader}
use byst.Io.Derived.{write_buf, read_byte_array}

-- `BigEndian` and `LittleEndian`
pub data Endianness : Type 0 where
  big : Endianness
  little : Endianness

-- `to_le_bytes` and `from_le_bytes`
unfoldable pub to_le_bytes : ℕ → ℕ → List ℕ
to_le_bytes zero v = []
to_le_bytes (suc n) v = v % 256 ∷ to_le_bytes n (v / 256)

unfoldable pub from_le_bytes : List ℕ → ℕ
from_le_bytes [] = 0
from_le_bytes (x ∷ xs) = x + 256 * from_le_bytes xs

-- `Encode::encode` and `Decode::decode`; `to_be_bytes` has the same bytes in the opposite order.
unfoldable pub encode : Endianness → ℕ → ℕ → List ℕ
unfolding to_le_bytes
encode big n v = reverse (to_le_bytes n v)
encode little n v = to_le_bytes n v

unfoldable pub decode : Endianness → List ℕ → ℕ
unfolding from_le_bytes
decode big xs = from_le_bytes (reverse xs)
decode little xs = from_le_bytes xs

-- `impl Write<W, E>`, through `write_buf` of the bytes
unfoldable pub write :
    {W : Type 0} → BufWriter W → Endianness → ℕ → ℕ → W → Outcome W Full (Unit {0})
write w e n v d = write_buf w slice_reader d (encode e n v)

-- `impl Read<R, E>`, through `read_byte_array`
abbrev pub decoded : {S : Type 0} → Endianness → Outcome S End (List ℕ) → Outcome S End ℕ
decoded e (ret xs s) = ret (decode e xs) s
decoded e (fail x s) = fail x s
decoded e abort = abort

unfoldable pub read : {S V : Type 0} → BufReader S V → Endianness → ℕ → S → Outcome S End ℕ
read r e n s = decoded e (read_byte_array r n s)
