-- ===== src/Rope.antt =====
-- byst/src/buf/rope.rs: a sequence of buffers with the offset of each, and a view of a part of it,
-- whose ends are found by a binary search. `len` is `Length::len` of a buffer; sums of `usize` that
-- overflow are panics, `none`.
pub mod Search
pub mod Offsets
pub mod Bounds
pub mod Views
pub mod Agree
pub mod Collected
use byst.Prelude.{
  ◌>>=◌, ℕ, zero, suc, ◌+◌, ◌-◌, ◌/◌, Bool, true, false, Option, none, some, List, ◌∷◌, ◌++◌, map,
  ltb, ◌==◌, if◌then◌else◌, checked_add, checked_sub, length, get_elem?, take, drop, Result, ok,
  or_panic, and_then, [],
}
use byst.Range.{Range, RangeOutOfBounds, indices_checked_in}
use byst.Iter.{DoubleEnded}
use byst.Iter.Chunks.{collect_with_offset}

-- `struct Segment`
pub record Segment (B : Type 0) : Type 0 where
  pub offset : ℕ
  pub buf : B

-- `struct Rope`
pub record Rope (B : Type 0) : Type 0 where
  pub segments : List (Segment B)

-- `struct View`
pub record View (B : Type 0) : Type 0 where
  pub segments : List (Segment B)
  pub start_offset : ℕ
  pub end_offset : ℕ

-- `std::cmp::Ordering`
pub data Ordering : Type 0 where
  less : Ordering
  equal : Ordering
  greater : Ordering

-- `usize::cmp`
abbrev pub cmp : ℕ → ℕ → Ordering
cmp a b = if ltb a b then less else if a == b then equal else greater

-- `first` and `last` of a slice
abbrev pub first : {A : Type 0} → List A → Option A
first [] = none
first (x ∷ xs) = some x

abbrev pub last : {A : Type 0} → List A → Option A
last [] = none
last (x ∷ []) = some x
last (x ∷ y ∷ xs) = last (y ∷ xs)

-- The loop of `<[T]>::binary_search_by`: an index between `left` and `right` at which `f` is
-- equal, for a list that `f` orders. The fuel bounds its rounds.
unfoldable pub search : {A : Type 0} → ℕ → (A → Ordering) → List A → ℕ → ℕ → Option ℕ
search zero f xs left right = none
search (suc n) f xs left right =
    let mid = left + (right - left) / 2 in
    let lower = search n f xs (mid + 1) right in
    let upper = search n f xs left mid in
    if ltb left right
    then and_then (get_elem? xs mid)
        (λ x. elim (f x) [ less ↦ lower | equal ↦ some mid | greater ↦ upper ])
    else none

-- `binary_search_by(..).ok()`
unfoldable pub binary_search_by : {A : Type 0} → (A → Ordering) → List A → Option ℕ
unfolding search
binary_search_by f xs = search (length xs) f xs 0 (length xs)

-- where a segment lies from `offset`
abbrev pub placed : Bool → Ordering → Ordering → Ordering
placed spill less _ = greater
placed spill equal greater = less
placed spill greater greater = less
placed spill equal equal = if spill then less else equal
placed spill greater equal = if spill then less else equal
placed spill equal less = equal
placed spill greater less = equal

abbrev pub place : {S : Type 0} → (S → ℕ × ℕ) → ℕ → Bool → S → Ordering
place bounds offset spill s = placed spill (cmp offset (bounds s).0) (cmp offset (bounds s).1)

-- `find_segment`
unfoldable pub find_segment : {S : Type 0} → List S → ℕ → Bool → (S → ℕ × ℕ) → Option ℕ
unfolding binary_search_by
find_segment segments offset end_spill_over bounds =
    binary_search_by (place bounds offset end_spill_over) segments

-- `struct SegmentBounds`
pub record SegmentBounds : Type 0 where
  pub start_segment : ℕ
  pub start_offset : ℕ
  pub end_segment : ℕ
  pub end_offset : ℕ

-- `bounds(&segments[n]).0`, and `offset` behind it
offset_in : {S : Type 0} → List S → (S → ℕ × ℕ) → ℕ → ℕ → Option ℕ
offset_in segments bounds n offset =
    and_then (get_elem? segments n) (λ s. checked_sub offset (bounds s).0)

-- `segment_bounds_unchecked`; `none` is the panic of an `expect`, a difference or an index.
unfoldable pub segment_bounds_unchecked :
    {S : Type 0} → List S → ℕ → ℕ → (S → ℕ × ℕ) → Option (Option SegmentBounds)
unfolding offset_in find_segment
segment_bounds_unchecked segments start end bounds =
    if start == end
    then some none
    else and_then (find_segment segments start true bounds) (λ i.
      and_then (offset_in segments bounds i start) (λ start_offset.
        and_then (find_segment (drop i segments) end false bounds) (λ j.
          and_then (offset_in segments bounds (j + i) end) (λ end_offset. some (
            some (record {
              start_segment = i;
              start_offset = start_offset;
              end_segment = j + i;
              end_offset = end_offset;
            }))))))

module _ {B : Type 0} (len : B → ℕ) where
  -- `new` and `with_capacity`
  abbrev pub new : Rope B
  new = record { segments = [] }

  abbrev pub num_segments : Rope B → ℕ
  num_segments r = length r.segments

  -- `Length::len`
  abbrev pub end_of : Option (Segment B) → Option ℕ
  end_of none = some 0
  end_of (some s) = checked_add s.offset (len s.buf)

  unfoldable pub rope_len : Rope B → Option ℕ
  rope_len r = end_of (last r.segments)

  -- `push`
  unfoldable pub push : B → Rope B → Option (Rope B)
  unfolding rope_len
  push segment r =
      if len segment == 0
      then some r
      else and_then (rope_len r) (λ n.
        some (record { segments = r.segments ++ (record { offset = n; buf = segment } ∷ []) }))

  -- `from_iter`, for an iterator that ends within the fuel
  unfoldable pub from_iter : {I : Type 0} → DoubleEnded I B → ℕ → I → Option (Rope B)
  from_iter d fuel iter = and_then (collect_with_offset d len fuel (iter, 0)) (λ items.
      some
        (record { segments = map (λ (offset, buf). record { offset = offset; buf = buf }) items }))

  -- the bounds of a segment, whose sum may overflow; the sum is not over `usize_mod` where `len` of
  -- the rope is not a panic
  abbrev pub bounds : Segment B → ℕ × ℕ
  bounds s = (s.offset, s.offset + len s.buf)

  abbrev viewed : List (Segment B) → Option SegmentBounds → View B
  viewed segments none = record { segments = []; start_offset = 0; end_offset = 0 }
  viewed segments (some b) = record {
    segments = take (suc b.end_segment - b.start_segment) (drop b.start_segment segments);
    start_offset = b.start_offset;
    end_offset = b.end_offset;
  }

  -- `view_unchecked`
  unfoldable pub view_unchecked : List (Segment B) → ℕ → ℕ → Option (View B)
  unfolding segment_bounds_unchecked
  view_unchecked segments start end =
      and_then (segment_bounds_unchecked segments start end bounds) (λ b. some (viewed segments b))

  -- `Rope::view_checked`
  unfoldable pub view_checked : Range → Rope B → Result RangeOutOfBounds (View B)
  unfolding rope_len view_unchecked
  view_checked range r = or_panic (rope_len r) (λ n. do
    (start, end) ← indices_checked_in range 0 n
    or_panic (view_unchecked r.segments start end) ok)

  -- `Length::len` of a view
  abbrev view_len_of : Option (Segment B) → Option (Segment B) → ℕ → ℕ → Option ℕ
  view_len_of (some f) (some l) start end =
      and_then (checked_sub l.offset f.offset)
        (λ n. and_then (checked_add n end) (λ n. checked_sub n start))
  view_len_of _ _ start end = some 0

  unfoldable pub view_len : View B → Option ℕ
  view_len v = view_len_of (first v.segments) (last v.segments) v.start_offset v.end_offset

  abbrev pub first_offset : Option (Segment B) → ℕ
  first_offset none = 0
  first_offset (some s) = s.offset

  -- `View::view_checked`
  unfoldable pub view_view : Range → View B → Result RangeOutOfBounds (View B)
  unfolding view_len view_unchecked
  view_view range v = or_panic (view_len v) (λ n. do
    (start, end) ← indices_checked_in range 0 n
    let base = first_offset (first v.segments)
    or_panic (and_then (checked_add start base) (λ a. checked_add a v.start_offset)) (λ a.
        or_panic (and_then (checked_add end base) (λ b. checked_add b v.start_offset))
          (λ b. or_panic (view_unchecked v.segments a b) ok)))
