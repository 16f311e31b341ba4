-- ===== src/Tests/Writers.antt =====
-- The writer of byst/src/buf/arc_buf.rs on a reference that was split.
use byst.Prelude.{
  ℕ, ◌≤◌, ◌≡◌, refl, inr, true, false, none, some, [], ◌∷◌, arith, take, drop, overlay, ok,
}
use byst.Io.Slice.{slice_reader}
use byst.Copy.Calls.{copy}
use byst.Arc.Count.{increment}
use byst.Arc.Ref
use byst.Arc.Ref.{Memory, uninitialized}
use byst.Arc.Shared.Cursor.{heap_ref}
use byst.Arc.Mutable.{ArcBufMut, filled, split_at}
use byst.Arc.Mutable.Split.{heap_mut, filled_bytes}
use byst.Arc.Writer.{State, new, store, peek_chunk_mut, arc_writer}
use byst.Arc.Writer.Contract.{IsWritable}
use byst.Arc.Writer.Frame.{IsApart, Steps, stays, goes, stores}
use byst.Arc.Writer.Apart.{Steps-apart}
use byst.Arc.Writer.Halves.{new-IsWritable, halves-independent}
use byst.Arc.Ref.{fully_initialize}
use byst.Arc.Mutable.{capacity, set_filled_to}
use byst.Arc.Writer.Resized.{IsTail, fully_initialize_lem}
use byst.Arc.Writer.Copying.{arc_buf, copy_arc}

-- "abcd" in a buffer of six bytes
abbrev memory : Memory
memory = record {
  buf = some 97 ∷ some 98 ∷ some 99 ∷ some 100 ∷ none ∷ none ∷ [];
  initialized = 4;
  word = 2;
  freed = false;
}

abbrev whole : ArcBufMut
whole = heap_mut 0 6 true 4

whole-IsWritable : IsWritable (memory, new whole)
whole-IsWritable =
    new-IsWritable memory 0 6 4 true (omega arith, omega arith, omega arith, omega arith)
      (omega arith) (omega arith, omega arith) tt

-- "ab", and apart from it what is behind
abbrev front : State
front = (memory, new (heap_mut 0 2 false 2))

front-IsWritable : IsWritable front
front-IsWritable =
    new-IsWritable memory 0 2 2 false (omega arith, omega arith, omega arith, omega arith)
      (omega arith) tt tt

behind-IsApart : IsApart (heap_ref 2 6 true) front.0 (front.1).buf
behind-IsApart = record {
  ordered = omega arith;
  in_memory = omega arith;
  apart = inr (omega arith);
}

front-Steps : Steps front (store (120 ∷ []) front)
unfolding uninitialized peek_chunk_mut filled
front-Steps =
    goes front front (store (120 ∷ []) front) (stays front)
      (stores front (120 ∷ []) (97 ∷ 98 ∷ []) refl (omega arith))

Steps-apart_example :
    IsWritable (store (120 ∷ []) front)
    × (uninitialized (store (120 ∷ []) front).0 (heap_ref 2 6 true)
        ≡ uninitialized front.0 (heap_ref 2 6 true))
Steps-apart_example =
    Steps-apart front (store (120 ∷ []) front) (heap_ref 2 6 true) front-IsWritable behind-IsApart
      front-Steps

copy_arc_example :
    (d : State) × (copy arc_buf arc_writer slice_reader (memory, whole) (1 ∷ 2 ∷ [])
      ≡ ok (d.0, (d.1).buf))
    × IsWritable d
    × (filled d.0 (d.1).buf ≡ some (overlay (1 ∷ 2 ∷ []) (97 ∷ 98 ∷ 99 ∷ 100 ∷ [])))
unfolding filled uninitialized
copy_arc_example =
    copy_arc memory whole (1 ∷ 2 ∷ []) (97 ∷ 98 ∷ 99 ∷ 100 ∷ []) whole-IsWritable refl (omega arith)

-- what a split before "d" leaves
abbrev shared : Memory
shared = record memory { word = 4 }

abbrev left : ArcBufMut
left = heap_mut 0 3 false 3

abbrev right : ArcBufMut
right = heap_mut 3 6 true 1

halves-independent_example :
    (filled shared right ≡ some (drop 3 (filled_bytes memory 0 4)))
    × (filled (store (120 ∷ []) (shared, new right)).0 left
        ≡ some (take 3 (filled_bytes memory 0 4)))
unfolding split_at uninitialized store peek_chunk_mut filled Ref.split_at increment
halves-independent_example =
    halves-independent memory 0 6 4 3 true left right shared (shared, new left)
      (store (120 ∷ []) (shared, new right)) (omega arith, omega arith, omega arith, omega arith)
      (omega arith) (omega arith, omega arith) tt (omega arith) (omega arith)
      (λ h. omega (arith, h)) refl (stays (shared, new left))
      (goes (shared, new right) (shared, new right) (store (120 ∷ []) (shared, new right))
        (stays (shared, new right))
        (stores (shared, new right) (120 ∷ []) (100 ∷ []) refl (omega arith)))

whole-IsTail : IsTail memory whole
unfolding uninitialized
whole-IsTail = record {
  backed = whole-IsWritable.backed;
  tail = refl;
  covered = omega arith;
  bounded = omega arith;
  known = tt;
}

fully_initialize_lem_example :
    (m : Memory) × (fully_initialize memory whole.inner ≡ some m)
    × IsTail m whole
    × (filled m whole ≡ filled memory whole)
    × ((n : ℕ)
        → n ≤ capacity whole
        → (set_filled_to n m whole ≡ some (record whole { filled = n }))
          × IsTail m (record whole { filled = n }))
fully_initialize_lem_example = fully_initialize_lem memory whole whole-IsTail
