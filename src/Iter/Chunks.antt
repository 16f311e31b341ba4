-- ===== src/Iter/Chunks.antt =====
-- The iterators of byst/src/buf/chunks.rs: the bytes of a reader, the chunks that are not empty, and the
-- chunks with their offsets.
pub mod All
use byst.Prelude.{
  ℕ, zero, suc, Option, none, some, List, [], ◌∷◌, ◌==◌, if◌then◌else◌, checked_add, Outcome, ret,
  fail, abort, and_then,
}
use byst.Io.Interface.{End, BufReader}
use byst.Io.Laws.{Peeks, IsCursor}
use byst.Iter.{DoubleEnded}

-- What a call of `BufIter::next` comes to; its two `expect`s can panic.
pub data Byte (S : Type 0) : Type 0 where
  byte : ℕ → S → Byte S
  done : S → Byte S
  expected : Byte S

module _ {S V : Type 0} (r : BufReader S V) where
  abbrev stepped : ℕ → Outcome S End (Unit {0}) → Byte S
  stepped x (ret _ s) = byte x s
  stepped x (fail _ _) = expected
  stepped x abort = expected

  next_byte_of : Option (List ℕ) → S → Byte S
  next_byte_of none s = done s
  next_byte_of (some []) s = expected
  next_byte_of (some (x ∷ _)) s = stepped x (r.advance 1 s)

  -- `BufIter::next`
  unfoldable pub next_byte : S → Byte S
  unfolding next_byte_of
  next_byte s = next_byte_of (r.peek_chunk s) s

  -- The bytes that a loop over the iterator sees, if it ends within the fuel; it stops at a panic.
  abbrev collected : ℕ → Option (List ℕ) → Option (List ℕ)
  collected x none = none
  collected x (some xs) = some (x ∷ xs)

  abbrev then_collect : (S → Option (List ℕ)) → Byte S → Option (List ℕ)
  then_collect f (byte x s) = collected x (f s)
  then_collect f (done s) = some []
  then_collect f expected = none

  unfoldable pub collect : ℕ → S → Option (List ℕ)
  collect zero s = none
  collect (suc n) s = then_collect (collect n) (next_byte s)

-- A chunk, whose length `len` says, of a chunk iterator.
module _ {I A : Type 0} (d : DoubleEnded I A) (len : A → ℕ) where
  -- `NonEmpty::next`: `then_some` of the test
  abbrev filtered : Option A × I → Option A × I
  filtered (none, i) = (none, i)
  filtered (some x, i) = (if len x == 0 then none else some x, i)

  unfoldable pub next_non_empty : I → Option A × I
  next_non_empty i = filtered (d.next i)

  unfoldable pub next_back_non_empty : I → Option A × I
  next_back_non_empty i = d.next_back i

  -- `WithOffset`, whose state is the iterator and its offset; an offset that overflows is a panic,
  -- `none`.
  abbrev offset_of : Option A × I → ℕ → Option (Option (ℕ × A) × (I × ℕ))
  offset_of (none, i) offset = some (none, (i, offset))
  offset_of (some x, i) offset =
      and_then (checked_add offset (len x)) (λ o. some (some (offset, x), (i, o)))

  unfoldable pub next_with_offset : I × ℕ → Option (Option (ℕ × A) × (I × ℕ))
  next_with_offset (i, offset) = offset_of (d.next i) offset

  -- The items that a loop over the iterator sees, if it ends within the fuel; it stops at a panic.
  abbrev then_item :
      (I × ℕ → Option (List (ℕ × A))) → Option (Option (ℕ × A) × (I × ℕ)) → Option (List (ℕ × A))
  then_item f none = none
  then_item f (some (none, s)) = some []
  then_item f (some (some x, s)) = and_then (f s) (λ xs. some (x ∷ xs))

  unfoldable pub collect_with_offset : ℕ → I × ℕ → Option (List (ℕ × A))
  collect_with_offset zero s = none
  collect_with_offset (suc n) s = then_item (collect_with_offset n) (next_with_offset s)
