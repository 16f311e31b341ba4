-- ===== src/Rope/Collected.antt =====
-- A rope collected from an iterator of buffers.
use byst.Prelude.{
  some, ℕ, ◌+◌, ◌<◌, ◌≡◌, refl, ap, List, [], ◌∷◌, ◌++◌, map, arith, usize_mod, length,
}
use byst.Iter.{DoubleEnded, IsDeque}
use byst.Iter.Chunks.All.{sum_of, offsets, collect_with_offset-offsets}
use byst.Rope.{Segment, Rope, from_iter}
use byst.Rope.Offsets.{IsOffsets, total}
use byst.Rope.Views.{contents}
use byst.Rope.Agree.{IsRope}

module _ {B : Type 0} (len : B → ℕ) (bytes : B → List ℕ)
    (len_lem : (b : B) → length (bytes b) ≡ len b) where
  -- the bytes of buffers, one after the other
  abbrev pub joined : List B → List ℕ
  joined [] = []
  joined (b ∷ bs) = bytes b ++ joined bs

  abbrev segment : ℕ × B → Segment B
  segment (offset, buf) = record { offset = offset; buf = buf }

  offsets-IsOffsets :
      {I : Type 0} {d : DoubleEnded I B} (q : IsDeque d) (o : ℕ) (bs : List B)
      → IsOffsets len o (map segment (offsets len o bs))
        × (total len (map segment (offsets len o bs)) ≡ sum_of q len bs)
        × (contents len bytes len_lem (map segment (offsets len o bs)) ≡ joined bs)
  unfolding offsets
  offsets-IsOffsets q o [] = (tt, refl, refl)
  offsets-IsOffsets q o (b ∷ bs) =
      let (x, y, z) = offsets-IsOffsets q (o + len b) bs in
      ((refl, x), ap (len b +◌) y, ap (bytes b ++◌) z)

  -- A collected rope has the offsets and the bytes of the buffers, whose lengths add up to a `usize`.
  pub from_iter_lem :
      {I : Type 0} {d : DoubleEnded I B} (q : IsDeque d) (fuel : ℕ) (iter : I)
      → length (q.items iter) < fuel
      → sum_of q len (q.items iter) < usize_mod
      → (r : Rope B) × (from_iter len d fuel iter ≡ some r)
        × IsRope len r
        × (contents len bytes len_lem r.segments ≡ joined (q.items iter))
  unfolding from_iter
  from_iter_lem {d = d} q fuel iter h k =
      let (x, y, z) = offsets-IsOffsets q 0 (q.items iter) in
      (
        record { segments = map segment (offsets len 0 (q.items iter)) },
        rw (collect_with_offset-offsets q len fuel iter 0 h (omega arith)) refl,
        record { offsets = x; small = omega (arith, y) },
        z,
      )
