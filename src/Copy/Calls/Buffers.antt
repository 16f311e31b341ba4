-- ===== src/Copy/Calls/Buffers.antt =====
-- `copy` of a slice into each of the buffers.
use byst.Prelude.{
  ℕ, ◌+◌, ◌≤◌, ◌<◌, ◌≡◌, refl, sym, ap, ◌∙◌, inl, inr, List, [], ◌++◌, arith, leb, if◌then◌else◌,
  lt→ltb, le→ltb, le→leb, lt→leb, le-or-lt, usize_mod, length, take-append-drop, overlay, Result,
  ok, err, ◌>>=◌,
}
use byst.Io.Slice.{
  SliceWriter, slice_at, slice_reader, slice_cursor, slice_writer, slice_writer_contract,
}
use byst.Buf.{Full, BufMut, reserve_fixed}
use byst.Buf.Vec.{VecWriter, vec_writer, vec_writer_at}
use byst.Buf.Vec.Contract.{vec_contract}
use byst.Buf.Partial.{PartiallyInitialized, bytes, reserve, partial_writer}
use byst.Buf.Partial.Valid.{IsValid}
use byst.Buf.Partial.Contract.{partial_contract}
use byst.Buf.Partial.Array.{partial_buf, partial_buf_reserve}
use byst.Copy.Calls.{copy}
use byst.Copy.Calls.Whole.{copy_lem}

reserved : (p : PartiallyInitialized) (n : ℕ) → n ≤ length p.buf → partial_buf_reserve n p ≡ ok p
unfolding partial_buf_reserve reserve reserve_fixed
reserved p n h = rw (le→ltb _ _ h)

-- `copy` of a slice into a valid partially initialised buffer whose capacity is below 2^64 and
-- holds the slice succeeds: the buffer stays valid, and its bytes are the slice put over the
-- front of what they were, longer where the slice is.
pub copy_partial :
    (p : PartiallyInitialized) (xs : List ℕ)
    → IsValid p
    → length p.buf < usize_mod
    → length xs ≤ length p.buf
    → (q : PartiallyInitialized) × (copy partial_buf partial_writer slice_reader p xs ≡ ok q)
      × IsValid q
      × (bytes q ≡ overlay xs (bytes p))
unfolding partial_contract slice_cursor slice_reader
copy_partial p xs v small h =
    let (d, e, sound, b) =
      copy_lem partial_buf partial_contract slice_cursor p p xs (reserved p (length xs) h)
        (record { inner = v; within = omega arith; small = small }) tt refl
        (le→leb (0 + length xs) _ (omega arith)) in
    (d.inner, e, sound.inner, sym (take-append-drop d.position (bytes d.inner)) ∙ b)

-- A longer source is refused before a byte is copied, with its length and the capacity.
pub copy_partial_full :
    (p : PartiallyInitialized) (xs : List ℕ)
    → length p.buf < length xs
    → copy partial_buf partial_writer slice_reader p xs
      ≡ err (record { required = length xs; capacity = length p.buf })
unfolding copy slice_reader partial_buf_reserve reserve reserve_fixed
copy_partial_full p xs h = rw (lt→ltb _ _ h)

-- `Vec::reserve` allocates, which changes no byte.
unfoldable pub vec_reserve : ℕ → List ℕ → Result Full (List ℕ)
vec_reserve size v = ok v

abbrev pub vec_buf : BufMut (List ℕ) VecWriter
vec_buf = record { reserve = vec_reserve; writer = vec_writer_at; inner = λ w. w.vec }

-- `copy` of a slice into a vector, both shorter than 2^64, succeeds and puts the slice over the
-- front of the vector, which grows where the slice is longer.
pub copy_vec :
    (v xs : List ℕ)
    → length v < usize_mod
    → length xs < usize_mod
    → copy vec_buf vec_writer slice_reader v xs ≡ ok (overlay xs v)
unfolding vec_reserve vec_contract slice_cursor slice_reader
copy_vec v xs small h =
    let (d, e, sound, b) =
      copy_lem vec_buf vec_contract slice_cursor v v xs refl
        (record { within = omega arith; small = small }) tt refl (lt→ltb _ _ (omega arith)) in
    e ∙ ap ok (sym (take-append-drop d.position d.vec) ∙ b)

-- `reserve` of `&mut [u8]` and of an array
unfoldable pub slice_reserve : ℕ → List ℕ → Result Full (List ℕ)
slice_reserve size v = reserve_fixed (length v) size >>= λ _. ok v

abbrev pub slice_buf_mut : BufMut (List ℕ) SliceWriter
slice_buf_mut = record {
  reserve = slice_reserve;
  writer = slice_at [];
  inner = λ w. w.written ++ w.left;
}

-- `copy` into a slice puts the source over its front if it is no longer, and else refuses it.
pub copy_slice :
    (v xs : List ℕ)
    → copy slice_buf_mut slice_writer slice_reader v xs ≡ (
        if leb (length xs) (length v)
        then ok (overlay xs v)
        else err (record { required = length xs; capacity = length v }))
unfolding copy slice_reserve reserve_fixed slice_writer_contract slice_cursor slice_reader
copy_slice v xs = elim (le-or-lt (length xs) (length v)) [
  | inl h ↦
      let (d, e, sound, b) =
        copy_lem slice_buf_mut slice_writer_contract slice_cursor v v xs (rw (le→ltb _ _ h)) tt tt
          refl (le→leb _ _ h) in
      rw (le→leb _ _ h) (e ∙ ap ok b)
  | inr h ↦ rw (lt→ltb _ _ h, lt→leb _ _ h)
]
