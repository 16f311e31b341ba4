-- ===== src/Slab.antt =====
-- byst/src/buf/slab.rs: buffers of one size that are used again. A buffer is known by a number, under
-- which `words` holds its reference count; a `Reclaim`, and in `available` the `ArcBufMut` beside it,
-- is that number.
pub mod Counts
pub mod Loop
pub mod Get
use byst.Prelude.{
  ◌*◌, ◌^◌, assert, usize_mod, ℕ, zero, suc, ◌+◌, true, Option, none, some, List, ◌∷◌, ◌++◌, ltb,
  ◌==◌, if◌then◌else◌, length, get_elem?, take, drop, and_then, [],
}
use byst.Arc.Count.{new, decrement, make_unreclaimable, try_reclaim}

-- the count of every buffer
abbrev pub Words : Type 0
Words = ℕ → ℕ

unfoldable pub set : ℕ → ℕ → Words → Words
set id word words = λ y. if y == id then word else words y

-- `struct Slab`
pub record Slab : Type 0 where
  pub buf_size : ℕ
  pub reuse_count : ℕ
  pub in_use : List ℕ
  pub available : List ℕ

-- `Vec::with_capacity` panics where the elements, each of `size` bytes, take more than the 2^63 - 1
-- bytes that an allocation can have; elsewhere the vector is empty.
with_capacity : ℕ → ℕ → Option (List ℕ)
with_capacity size capacity = assert (ltb (capacity * size) (2 ^ 63)) (some [])

-- `Slab::new`; how many bytes a `Reclaim` and the pair with an `ArcBufMut` take is up to the compiler.
unfoldable pub slab : ℕ → ℕ → ℕ → ℕ → Option Slab
unfolding with_capacity
slab reclaim_size pair_size buf_size reuse_count = assert (ltb (reuse_count * 2) usize_mod) (
    and_then (with_capacity reclaim_size (reuse_count * 2)) (λ in_use.
      and_then (with_capacity pair_size reuse_count) (λ available. some (record {
        buf_size = buf_size;
        reuse_count = reuse_count;
        in_use = in_use;
        available = available;
      }))))

-- `Vec::pop`
unfoldable pub pop : List ℕ → Option (List ℕ × ℕ)
pop [] = none
pop (x ∷ []) = some ([], x)
pop (x ∷ y ∷ ys) = and_then (pop (y ∷ ys)) (λ (zs, z). some (x ∷ zs, z))

-- `Vec::swap_remove`: the last element takes the place of the one that is removed.
abbrev insert_second : ℕ → List ℕ → List ℕ
insert_second x [] = x ∷ []
insert_second x (y ∷ ys) = y ∷ x ∷ ys

unfoldable pub last_to_front : List ℕ → List ℕ
last_to_front [] = []
last_to_front (x ∷ xs) = insert_second x (last_to_front xs)

unfoldable pub swap_remove : ℕ → List ℕ → List ℕ
unfolding last_to_front
swap_remove i xs = take i xs ++ last_to_front (drop (suc i) xs)

-- The loop of `get` over the buffers in use, and what it has found.
pub record Scan : Type 0 where
  pub index : ℕ
  pub reclaimed : Option ℕ
  pub in_use : List ℕ
  pub available : List ℕ
  pub words : Words

-- `Reclaim::try_reclaim`, on the count of its buffer
unfoldable pub claim : ℕ → Words → Words
unfolding set
claim id words = set id (try_reclaim (words id)).1 words

-- a `Reclaim` and then its buffer, dropped
unfoldable pub release : ℕ → Words → Words
unfolding set
release id words = set id (decrement (make_unreclaimable (words id)).1).1 words

-- another buffer that can be reclaimed, kept in `available` or dropped
unfoldable pub keep : ℕ → ℕ → Scan → Scan
unfolding swap_remove release
keep reuse_count id s =
    let t = record s { in_use = swap_remove s.index s.in_use } in
    if ltb (length s.available) reuse_count
    then record t { available = s.available ++ (id ∷ []) }
    else record t { words = release id s.words }

-- the loop's body, at the buffer `id`
unfoldable pub visit : ℕ → ℕ → Scan → Scan
unfolding claim keep
visit reuse_count id s =
    let t = record s { words = claim id s.words } in
    if (try_reclaim (s.words id)).0
    then elim s.reclaimed [
      | none ↦ record t { reclaimed = some id }
      | some _ ↦ keep reuse_count id t
    ]
    else record t { index = suc s.index }

-- `none` is out of fuel.
unfoldable pub scan : ℕ → ℕ → Scan → Option Scan
unfolding visit
scan zero reuse_count s = none
scan (suc fuel) reuse_count s = elim (get_elem? s.in_use s.index) [
  | none ↦ some s
  | some id ↦ scan fuel reuse_count (visit reuse_count id s)
]

-- what `get` returns of the scan, or a new buffer with the number `fresh`
unfoldable pub taken_with : ℕ → Slab → Scan → Option ℕ → Option ℕ × Slab × Words
unfolding set
taken_with fresh b s (some id) =
    (some id, record b { in_use = s.in_use; available = s.available }, s.words)
taken_with fresh b s none = (
  some fresh,
  record b { in_use = s.in_use ++ (fresh ∷ []); available = s.available },
  set fresh (new 1 true) s.words,
)

abbrev pub taken : ℕ → Slab → Scan → Option ℕ × Slab × Words
taken fresh b s = taken_with fresh b s s.reclaimed

-- `get`, after the attempt to take a buffer from `available`
unfoldable pub popped_or_scanned :
    ℕ → Slab → Words → Option (List ℕ × ℕ) → Option (Option ℕ × Slab × Words)
unfolding scan taken_with
popped_or_scanned fresh b words (some (available, id)) =
    some (some id, record b { in_use = b.in_use ++ (id ∷ []); available = available }, words)
popped_or_scanned fresh b words none =
    and_then
      (scan (length b.in_use + 2) b.reuse_count (record {
        index = 0;
        reclaimed = none;
        in_use = b.in_use;
        available = b.available;
        words = words;
      }))
      (λ s. some (taken fresh b s))

-- `get`; `none` as the buffer is the zero-sized one, and `none` as the result is out of fuel.
unfoldable pub get : ℕ → Slab → Words → Option (Option ℕ × Slab × Words)
unfolding pop popped_or_scanned
get fresh b words =
    if b.buf_size == 0
    then some (none, b, words)
    else popped_or_scanned fresh b words (pop b.available)

-- `num_in_use`, `num_available`, `num_total` and `set_reuse_count`; the other accessors are fields.
abbrev pub num_in_use : Slab → ℕ
num_in_use b = length b.in_use

abbrev pub num_available : Slab → ℕ
num_available b = length b.available

abbrev pub num_total : Slab → ℕ
num_total b = num_in_use b + num_available b

unfoldable pub set_reuse_count : ℕ → Slab → Slab
set_reuse_count reuse_count b = record b { reuse_count = reuse_count }
