-- ===== src/Tests/Slabs.antt =====
-- `Slab` of byst/src/buf/slab.rs.
use byst.Prelude.{ℕ, zero, suc, ◌≡◌, refl, Option, none, some, List, [], ◌∷◌, arith}
use byst.Slab.{Slab, Words, get}
use byst.Arc.Count.{try_reclaim}
use byst.Slab.Get.{IsSlab, Gets, get_lem}

-- Buffer 0 is in use; nobody refers to the buffers 1 and 2 any more, and none is available.
abbrev busy : Slab
busy = record { buf_size = 128; reuse_count = 1; in_use = 0 ∷ 1 ∷ 2 ∷ []; available = [] }

abbrev counts : Words
counts zero = 3
counts (suc _) = 1

busy-IsSlab : IsSlab busy counts
busy-IsSlab = record { owned = tt; few = omega arith }

get_lem_example : Gets busy (get 3 busy counts)
get_lem_example = get_lem 3 busy counts busy-IsSlab

abbrev total : Option (Option ℕ × Slab × Words) → List ℕ × List ℕ
total none = ([], [])
total (some (_, b, _)) = (b.in_use, b.available)

get_moves : total (get 3 busy counts) ≡ (0 ∷ 1 ∷ [], 2 ∷ [])
unfolding get try_reclaim
get_moves = refl
