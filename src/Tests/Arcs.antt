-- ===== src/Tests/Arcs.antt =====
-- The shared buffers of byst/src/buf/arc_buf.rs.
use byst.Prelude.{◌≡◌, true, false, not, ◌&&◌, none, some, [], ◌∷◌, arith, ◌==◌, ok}
use byst.Arc.Count.{decrement, try_reclaim}
use byst.Arc.Threads.{Threads, allocated, cloned, clones, Reachable, start, after}
use byst.Arc.Threads.Sound.{IsSound, reachable-IsSound, drop-must, reclaim_unique}
use byst.Arc.Threads.Release.{Steps, IsReleased, reachable-CanRelease}
use byst.Arc.Ref.{Memory, zero_sized}
use byst.Arc.Mutable.{filled, split_at, freeze}
use byst.Arc.Mutable.Split.{heap_mut, Halves, split_at_lem, split_at-start, Freezes, freeze_lem}

-- a reclaimable buffer, its reference cloned
abbrev twice : Threads
twice = cloned (allocated true)

twice-Reachable : Reachable twice
unfolding allocated
twice-Reachable =
    after (allocated true) twice (start true) (clones (allocated true) (omega arith) (omega arith))

reachable-IsSound_example : IsSound twice
reachable-IsSound_example = reachable-IsSound twice twice-Reachable

drop-must_example : (decrement twice.word).0 ≡ some ((twice.refs == 1) && not twice.reclaim)
unfolding cloned allocated
drop-must_example = drop-must twice twice-Reachable (omega arith)

reclaim_unique_example : (try_reclaim twice.word).0 ≡ (twice.refs == 0) && twice.reclaim
reclaim_unique_example = reclaim_unique twice twice-Reachable

reachable-CanRelease_example : (u : Threads) × Steps twice u × IsReleased u
reachable-CanRelease_example = reachable-CanRelease twice twice-Reachable

-- "abcd" in a buffer of six bytes
abbrev memory : Memory
memory = record {
  buf = some 97 ∷ some 98 ∷ some 99 ∷ some 100 ∷ none ∷ none ∷ [];
  initialized = 4;
  word = 2;
  freed = false;
}

split_at_lem_example : Halves 1 (97 ∷ 98 ∷ 99 ∷ 100 ∷ []) (split_at 1 memory (heap_mut 0 6 true 4))
split_at_lem_example =
    split_at_lem memory 0 6 4 1 true (omega arith, omega arith, omega arith, omega arith)
      (omega arith) (omega arith) (λ h. omega (arith, h))

split_at-start_example :
    (split_at 1 memory (heap_mut 1 6 true 3)
      ≡ ok (record { inner = zero_sized; filled = 1 }, memory, heap_mut 1 6 true 2))
    × (filled memory (record { inner = zero_sized; filled = 1 }) ≡ none)
    × (filled memory (heap_mut 1 6 true 2) ≡ some (98 ∷ 99 ∷ []))
split_at-start_example =
    split_at-start memory 1 6 3 true (omega arith, omega arith, omega arith, omega arith)
      (omega arith) (omega arith)

freeze_lem_example : Freezes (97 ∷ 98 ∷ 99 ∷ 100 ∷ []) (freeze memory (heap_mut 0 6 true 4))
freeze_lem_example =
    freeze_lem memory 0 6 4 true (omega arith, omega arith, omega arith, omega arith) (omega arith)
