-- ===== src/Range.antt =====
-- byst/src/range.rs: ranges of optional bounds, and the index arithmetic of every `view`. Sums are
-- checked as in a build with overflow checks, so that one above 2^64 - 1 is a panic.
pub mod Indices
pub mod Contains
use byst.Prelude.{
  ℕ, ◌+◌, ◌-◌, Option, none, some, List, Bool, true, false, not, ltb, leb, if◌then◌else◌,
  checked_add, Result, ok, err, panic, or_panic, ◌>>=◌, length, take, drop,
}

-- `struct Range`
pub record Range : Type 0 where
  pub start : Option ℕ
  pub end : Option ℕ

-- `struct RangeOutOfBounds`
pub record RangeOutOfBounds : Type 0 where
  pub required : Range
  pub bounds : ℕ × ℕ

-- `std::ops::Bound`
pub data Bound : Type 0 where
  included : ℕ → Bound
  excluded : ℕ → Bound
  unbounded : Bound

abbrev pub range : Option ℕ → Option ℕ → Range
range s e = record { start = s; end = e }

abbrev pub unwrap_or : ℕ → Option ℕ → ℕ
unwrap_or d none = d
unwrap_or d (some n) = n

-- `value + 1`, as the present bound of a range
after : ℕ → Option (Option ℕ)
after n = elim (checked_add n 1) [ none ↦ none | some m ↦ some (some m) ]

start_of_bound : Bound → Option (Option ℕ)
unfolding after
start_of_bound (included s) = some (some s)
start_of_bound (excluded s) = after s
start_of_bound unbounded = some none

end_of_bound : Bound → Option (Option ℕ)
unfolding after
end_of_bound (included e) = after e
end_of_bound (excluded e) = some (some e)
end_of_bound unbounded = some none

from_bounds : Option (Option ℕ) → Option (Option ℕ) → Option Range
from_bounds (some s) (some e) = some (range s e)
from_bounds none _ = none
from_bounds _ none = none

-- `Range::from_range_bounds`, given the two bounds of the argument
unfoldable pub from_range_bounds : Bound → Bound → Option Range
unfolding start_of_bound end_of_bound from_bounds
from_range_bounds s e = from_bounds (start_of_bound s) (end_of_bound e)

-- The range types of `std::ops` that have an `impl From`.
pub data StdRange : Type 0 where
  exclusive : ℕ → ℕ → StdRange
  from : ℕ → StdRange
  full : StdRange
  inclusive : ℕ → ℕ → StdRange
  to : ℕ → StdRange
  to_inclusive : ℕ → StdRange

-- `impl From<$ty> for Range`, with the bounds that `RangeBounds` gives each type
unfoldable pub from_std : StdRange → Option Range
unfolding from_range_bounds
from_std (exclusive a b) = from_range_bounds (included a) (excluded b)
from_std (from a) = from_range_bounds (included a) unbounded
from_std full = from_range_bounds unbounded unbounded
from_std (inclusive a b) = from_range_bounds (included a) (included b)
from_std (to b) = from_range_bounds unbounded (excluded b)
from_std (to_inclusive b) = from_range_bounds unbounded (included b)

-- `impl From<usize> for Range`
unfoldable pub from_usize : ℕ → Option Range
from_usize value = elim (checked_add value 1) [
  | none ↦ none
  | some e ↦ some (range (some value) (some e))
]

-- `impl From<(usize, usize)> for Range`
unfoldable pub from_pair : ℕ × ℕ → Range
from_pair (s, e) = range (some s) (some e)

unfoldable pub with_start : Range → ℕ → Range
with_start r s = record r { start = some s }

unfoldable pub with_end : Range → ℕ → Range
with_end r e = record r { end = some e }

-- `Range::with_length`; `none` is the panic of `expect` and of the sum.
unfoldable pub with_length : Range → ℕ → Option Range
with_length r len = elim r.start [
  | none ↦ none
  | some s ↦ elim (checked_add s len) [ none ↦ none | some e ↦ some (range (some s) (some e)) ]
]

start_bound : Option ℕ → Bound
start_bound none = unbounded
start_bound (some s) = included s

end_bound : Option ℕ → Bound
end_bound none = unbounded
end_bound (some e) = excluded e

unfoldable pub as_slice_index : Range → Bound × Bound
unfolding start_bound end_bound
as_slice_index r = (start_bound r.start, end_bound r.end)

abbrev pub out_of_bounds : Range → ℕ → ℕ → RangeOutOfBounds
out_of_bounds r start end = record { required = r; bounds = (start, end) }

-- The first index of a pair of bounds in a slice, and the one behind the last. A bound at the
-- largest `usize` has no next index.
first_index : Bound → Option ℕ
first_index (included s) = some s
first_index (excluded s) = checked_add s 1
first_index unbounded = some 0

last_index : ℕ → Bound → Option ℕ
last_index len (included e) = checked_add e 1
last_index len (excluded e) = some e
last_index len unbounded = some len

cut : List ℕ → Option ℕ → Option ℕ → Option (List ℕ)
cut xs (some s) (some e) =
    if leb s e then (if leb e (length xs) then some (take (e - s) (drop s xs)) else none) else none
cut xs none _ = none
cut xs _ none = none

-- `<[u8]>::get` at a pair of bounds
unfoldable pub slice_get_bounds : List ℕ → Bound × Bound → Option (List ℕ)
unfolding first_index last_index cut
slice_get_bounds xs (s, e) = cut xs (first_index s) (last_index (length xs) e)

-- `Range::slice_get`; `slice_get_mut` gives the same part of the slice for writing.
unfoldable pub slice_get : Range → List ℕ → Result RangeOutOfBounds (List ℕ)
unfolding as_slice_index slice_get_bounds
slice_get r xs = elim (slice_get_bounds xs (as_slice_index r)) [
  | some ys ↦ ok ys
  | none ↦ err (out_of_bounds r 0 (length xs))
]

unchecked_end : Option ℕ → ℕ → ℕ → Option ℕ
unchecked_end none start end = some end
unchecked_end (some i) start end = checked_add i start

-- `Range::indices_unchecked_in`; `none` is the panic of a sum.
unfoldable pub indices_unchecked_in : Range → ℕ → ℕ → Option (ℕ × ℕ)
unfolding unchecked_end
indices_unchecked_in r start end = elim (checked_add (unwrap_or 0 r.start) start) [
  | none ↦ none
  | some i ↦ elim (unchecked_end r.end start end) [
    | none ↦ none
    | some j ↦ some (i, if ltb j i then i else j)
  ]
]

-- `index_start` of `indices_checked_in`, and `index_end`, which is held against it.
checked_start : RangeOutOfBounds → Option ℕ → ℕ → ℕ → Result RangeOutOfBounds ℕ
checked_start e none start end = ok start
checked_start e (some s) start end =
    or_panic (checked_add s start) (λ i. if ltb end i then err e else ok i)

checked_end : RangeOutOfBounds → Option ℕ → ℕ → ℕ → ℕ → Result RangeOutOfBounds ℕ
checked_end e none start end index_start = ok end
checked_end e (some n) start end index_start =
    or_panic (checked_add n start)
      (λ j. if ltb end j then err e else if ltb j index_start then err e else ok j)

-- `Range::indices_checked_in`
unfoldable pub indices_checked_in : Range → ℕ → ℕ → Result RangeOutOfBounds (ℕ × ℕ)
unfolding checked_start checked_end
indices_checked_in r start end = do
  i ← checked_start (out_of_bounds r start end) r.start start end
  j ← checked_end (out_of_bounds r start end) r.end start end i
  ok (i, j)

-- `Range::len_in`, with its `saturating_sub`
unfoldable pub len_in : Range → ℕ → ℕ → Option ℕ
unfolding indices_unchecked_in
len_in r start end = elim (indices_unchecked_in r start end) [
  | none ↦ none
  | some (i, j) ↦ some (j - i)
]

-- the guards `left > right` and `left < right` of two bounds that are both present
both_lt : Option ℕ → Option ℕ → Bool
both_lt (some left) (some right) = ltb left right
both_lt none _ = false
both_lt _ none = false

-- `Range::contains`, at a range
unfoldable pub contains : Range → Range → Bool
unfolding both_lt
contains r other = if both_lt other.start r.start then false else not (both_lt r.end other.end)

unfoldable pub contained_by : Range → Range → Bool
unfolding contains
contained_by r other = contains other r

-- `Range::contains_index`
unfoldable pub contains_index : Range → ℕ → Bool
unfolding both_lt
contains_index r index =
    if both_lt (some index) r.start then false else not (both_lt r.end (some index))
