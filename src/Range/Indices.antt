-- ===== src/Range/Indices.antt =====
-- The index arithmetic of byst/src/range.rs, and the parts of a slice that it selects.
use byst.Prelude.{
  ℕ, ◌+◌, ◌-◌, ◌≤◌, ◌<◌, ◌≡◌, ◌↔◌, Option, none, some, List, arith, usize_mod, length, take, drop,
  Result, ok, err, ◌>>=◌, IsNoPanic,
}
use byst.Range.{
  Range, RangeOutOfBounds, range, slice_get_bounds, as_slice_index, out_of_bounds, unwrap_or,
  indices_checked_in, indices_unchecked_in, slice_get, len_in,
}

-- The fields are values of `usize`.
abbrev pub IsUsize : Range → Type 0
IsUsize r = (unwrap_or 0 r.start < usize_mod) × (unwrap_or 0 r.end < usize_mod)

-- an optional bound, moved by the start of the buffer
abbrev pub shift : ℕ → Option ℕ → Option ℕ
shift start none = none
shift start (some n) = some (n + start)

-- For a buffer from `start` to `end`, in order and below 2^64, `indices_checked_in` succeeds
-- with two indices exactly if they are the range's bounds moved by `start`, the buffer's own
-- where the range has none, in order and within `end`.
pub indices_checked_in_iff :
    (s e : Option ℕ) (start end i j : ℕ)
    → start ≤ end
    → end < usize_mod
    → (indices_checked_in (range s e) start end ≡ ok (i, j))
      ↔ ((i ≡ start + unwrap_or 0 s) × (j ≡ unwrap_or end (shift start e)) × (i ≤ j) × (j ≤ end))
unfolding indices_checked_in
indices_checked_in_iff none none start end i j h k = ground arith
indices_checked_in_iff none (some e) start end i j h k = ground arith
indices_checked_in_iff (some s) none start end i j h k = ground arith
indices_checked_in_iff (some s) (some e) start end i j h k = ground arith

-- Under usize ranges `slice_get` is `indices_checked_in` in `0..len`, and the part between.
abbrev pub part : List ℕ → ℕ × ℕ → List ℕ
part xs (i, j) = take (j - i) (drop i xs)

-- For a range whose bounds are values of `usize`, `slice_get` is `indices_checked_in` of the
-- slice's length, its error included, followed by the part between the two indices.
pub slice_get-eq-indices :
    (s e : Option ℕ) (xs : List ℕ)
    → IsUsize (range s e)
    → slice_get (range s e) xs
      ≡ (indices_checked_in (range s e) 0 (length xs) >>= λ ij. ok (part xs ij))
unfolding slice_get indices_checked_in
slice_get-eq-indices none none xs h = ground arith
slice_get-eq-indices none (some e) xs h = ground arith
slice_get-eq-indices (some s) none xs h = ground arith
slice_get-eq-indices (some s) (some e) xs h = ground arith

-- unchecked agrees with checked where that succeeds
pub unchecked_of_checked :
    (s e : Option ℕ) (start end i j : ℕ)
    → start ≤ end
    → end < usize_mod
    → indices_checked_in (range s e) start end ≡ ok (i, j)
    → (indices_unchecked_in (range s e) start end ≡ some (i, j))
      × (len_in (range s e) start end ≡ some (j - i))
unfolding indices_checked_in indices_unchecked_in len_in
unchecked_of_checked none none start end i j h k = ground arith
unchecked_of_checked none (some e) start end i j h k = ground arith
unchecked_of_checked (some s) none start end i j h k = ground arith
unchecked_of_checked (some s) (some e) start end i j h k = ground arith

elim-IsNoPanic :
    (e : RangeOutOfBounds) (o : Option (List ℕ))
    → IsNoPanic
        (elim o as (λ _. Result RangeOutOfBounds (List ℕ)) [ some ys ↦ ok ys | none ↦ err e ])
elim-IsNoPanic e none = tt
elim-IsNoPanic e (some ys) = tt

-- A slice's `get` does not panic, and cuts off a front.
pub slice_get-IsNoPanic : (r : Range) (xs : List ℕ) → IsNoPanic (slice_get r xs)
unfolding slice_get as_slice_index slice_get_bounds
slice_get-IsNoPanic r xs =
    elim-IsNoPanic (out_of_bounds r 0 (length xs)) (slice_get_bounds xs (as_slice_index r))

pub slice_get-front :
    (n : ℕ) (xs : List ℕ)
    → n ≤ length xs
    → slice_get (range (some 0) (some (0 + n))) xs ≡ ok (take n xs)
unfolding slice_get as_slice_index slice_get_bounds
slice_get-front n xs h = ground arith

pub slice_get-beyond :
    (n : ℕ) (xs : List ℕ)
    → length xs < n
    → slice_get (range (some 0) (some (0 + n))) xs
      ≡ err (out_of_bounds (range (some 0) (some (0 + n))) 0 (length xs))
unfolding slice_get as_slice_index slice_get_bounds
slice_get-beyond n xs h = ground arith
