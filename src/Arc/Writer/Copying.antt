-- ===== src/Arc/Writer/Copying.antt =====
-- `copy` of a slice into an `ArcBufMut`: byst/src/copy.rs with byst/src/buf/arc_buf.rs.
use byst.Prelude.{
  ℕ, ◌+◌, ◌≤◌, ◌≡◌, refl, sym, ap, ◌∙◌, some, List, arith, le→ltb, le→leb, length, take-append-drop,
  overlay, Result, ok, ◌>>=◌,
}
use byst.Io.Slice.{slice_reader, slice_cursor}
use byst.Buf.{Full, BufMut, reserve_fixed}
use byst.Buf.Partial
use byst.Arc.Ref.{Memory, uninitialized}
use byst.Arc.Mutable.{ArcBufMut, capacity, filled, reserve}
use byst.Arc.Writer.{State, new, arc_writer}
use byst.Arc.Writer.Simulate.{part, length-uninitialized}
use byst.Arc.Writer.Contract.{IsWritable, arc_contract}
use byst.Copy.Calls.{copy}
use byst.Copy.Calls.Whole.{copy_lem}

-- `BufMut::reserve`, which changes nothing, and `BufMut::writer`
unfoldable pub arc_reserve : ℕ → Memory × ArcBufMut → Result Full (Memory × ArcBufMut)
arc_reserve size (m, b) = reserve b size >>= λ _. ok (m, b)

abbrev pub arc_buf : BufMut (Memory × ArcBufMut) State
arc_buf = record {
  reserve = arc_reserve;
  writer = λ (m, b). (m, new b);
  inner = λ (m, w). (m, w.buf);
}

arc_reserved :
    (m : Memory) (b : ArcBufMut) (n : ℕ) → n ≤ capacity b → arc_reserve n (m, b) ≡ ok (m, b)
unfolding arc_reserve reserve reserve_fixed
arc_reserved m b n h = rw (le→ltb _ _ h) refl

-- the filled bytes of a writable state, as the writer's part has them
pub filled-part :
    {s : State} → IsWritable s → filled s.0 (s.1).buf ≡ some (Partial.bytes (part s).inner)
unfolding filled part Partial.bytes
filled-part {s} v =
    rw (le→leb (s.1).buf.filled (length (uninitialized s.0 (s.1).buf.inner)) v.sound.inner.in_buf)
      refl

same_bytes : {xs ys : List ℕ} → some xs ≡ some ys → xs ≡ ys
same_bytes h = cc

-- `copy` of a slice into a writable `ArcBufMut` that has the capacity for it succeeds, leaves
-- the buffer writable, and its filled bytes are the slice put over those that were filled.
pub copy_arc :
    (m : Memory) (b : ArcBufMut) (xs bs : List ℕ)
    → IsWritable (m, new b)
    → filled m b ≡ some bs
    → length xs ≤ capacity b
    → (d : State) × (copy arc_buf arc_writer slice_reader (m, b) xs ≡ ok (d.0, (d.1).buf))
      × IsWritable d
      × (filled d.0 (d.1).buf ≡ some (overlay xs bs))
unfolding arc_contract slice_cursor slice_reader part
copy_arc m b xs bs v e h =
    let (d, k, sound, c) =
      copy_lem arc_buf arc_contract slice_cursor (m, b) (m, b) xs (arc_reserved m b (length xs) h) v
        tt refl (le→leb (0 + length xs) _ (omega (arith, length-uninitialized v.backed))) in
    (
      d,
      k,
      sound,
      filled-part sound
          ∙ ap some (
              sym (take-append-drop (d.1).position (Partial.bytes (part d).inner))
              ∙ c
              ∙ ap (overlay xs) (same_bytes (sym (filled-part v) ∙ e))),
    )
