-- ===== src/Io/Values.antt =====
-- The values that byst/src/io/read.rs, byst/src/io/write.rs and byst/src/endianness.rs read and
-- write: bytes, arrays, addresses, integers and tuples. A type's `Read` and `Write` are functions on
-- the state of a reader and of a writer.
pub mod Codec
use byst.Prelude.{
  ℕ, ◌-◌, ◌/◌, ◌%◌, ◌^◌, List, ◌∷◌, ltb, if◌then◌else◌, Outcome, ret, fail, abort, [],
}
use byst.Io.Interface.{End, Full, BufReader, BufWriter}
use byst.Io.Slice.{slice_reader}
use byst.Io.Derived.{write_buf, read_byte_array}
use byst.Endian
use byst.Endian.{Endianness, encode, decode}

-- Signed integers: `pos n` is n, and `negsuc n` is -1 - n.
pub data ℤ : Type 0 where
  pos : ℕ → ℤ
  negsuc : ℕ → ℤ

-- The casts between the signed and the unsigned integers of a modulus.
unfoldable pub as_signed : ℕ → ℕ → ℤ
as_signed m n = if ltb n (m / 2) then pos n else negsuc (m - 1 - n)

unfoldable pub as_unsigned : ℕ → ℤ → ℕ
as_unsigned m (pos n) = n % m
as_unsigned m (negsuc n) = m - 1 - n % m

-- A value that was read, as another one.
abbrev pub read_as : {S A B : Type 0} → (A → B) → Outcome S End A → Outcome S End B
read_as f (ret a s) = ret (f a) s
read_as f (fail e s) = fail e s
read_as f abort = abort

-- `?` on a read, and on a write
abbrev pub then_read :
    {S A B : Type 0} → Outcome S End A → (A → S → Outcome S End B) → Outcome S End B
then_read (ret a s) f = f a s
then_read (fail e s) f = fail e s
then_read abort f = abort

abbrev pub then_write :
    {W : Type 0}
    → Outcome W Full (Unit {0})
    → (W → Outcome W Full (Unit {0}))
    → Outcome W Full (Unit {0})
then_write (ret _ d) f = f d
then_write (fail e d) f = fail e d
then_write abort f = abort

-- the only element of an array of one
abbrev pub only : List ℕ → ℕ
only [] = 0
only (x ∷ _) = x

module _ {S V : Type 0} (r : BufReader S V) where
  -- `Read` of `()` and of `PhantomData`
  unfoldable pub read_unit : S → Outcome S End (Unit {0})
  read_unit s = ret tt s

  -- `Read` of `[u8; N]`, and of the addresses that are made of one
  unfoldable pub read_array : ℕ → S → Outcome S End (List ℕ)
  read_array n s = read_byte_array r n s

  unfoldable pub read_ipv4 : S → Outcome S End (List ℕ)
  unfolding read_array
  read_ipv4 s = read_array 4 s

  unfoldable pub read_ipv6 : S → Outcome S End (List ℕ)
  unfolding read_array
  read_ipv6 s = read_array 16 s

  -- `Read` of `u8` and of `i8`
  unfoldable pub read_u8 : S → Outcome S End ℕ
  read_u8 s = read_as only (read_byte_array r 1 s)

  unfoldable pub read_i8 : S → Outcome S End ℤ
  unfolding read_u8
  read_i8 s = read_as (as_signed 256) (read_u8 s)

  -- `Read` of a signed integer of `n` bytes
  unfoldable pub read_signed : Endianness → ℕ → S → Outcome S End ℤ
  read_signed e n s = read_as (as_signed (256 ^ n)) (Endian.read r e n s)

-- `Read` of a tuple: the first component, then the tuple of the others
unfoldable pub read_tuple :
    {S A B : Type 0} → (S → Outcome S End A) → (S → Outcome S End B) → S → Outcome S End (A × B)
read_tuple f g s = then_read (f s) (λ a s. read_as (λ b. (a, b)) (g s))

module _ {W : Type 0} (w : BufWriter W) where
  -- `Write` of `()` and of `PhantomData`
  unfoldable pub write_unit : Unit {0} → W → Outcome W Full (Unit {0})
  write_unit _ d = ret tt d

  -- `Write` of `[u8; N]`
  unfoldable pub write_array : List ℕ → W → Outcome W Full (Unit {0})
  write_array xs d = write_buf w slice_reader d xs

  -- `Write` of `u8` and of `i8`
  unfoldable pub write_u8 : ℕ → W → Outcome W Full (Unit {0})
  write_u8 b d = write_buf w slice_reader d (b ∷ [])

  unfoldable pub write_i8 : ℤ → W → Outcome W Full (Unit {0})
  unfolding write_u8
  write_i8 b d = write_u8 (as_unsigned 256 b) d

  -- `Write` of a signed integer of `n` bytes
  unfoldable pub write_signed : Endianness → ℕ → ℤ → W → Outcome W Full (Unit {0})
  write_signed e n v d = Endian.write w e n (as_unsigned (256 ^ n) v) d

-- `Write` of a tuple
unfoldable pub write_tuple :
    {W A B : Type 0}
    → (A → W → Outcome W Full (Unit {0}))
    → (B → W → Outcome W Full (Unit {0}))
    → A × B
    → W
    → Outcome W Full (Unit {0})
write_tuple f g (a, b) d = then_write (f a d) (λ d. g b d)
