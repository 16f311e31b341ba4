-- ===== src/Range/Contains.antt =====
-- The containment tests of byst/src/range.rs.
use byst.Prelude.{
  ℕ, ◌≤◌, ◌<◌, ◌≡◌, ◌≢◌, ◌↔◌, Option, none, some, List, true, false, err, length, arith,
}
use byst.Range.{
  Range, unwrap_or, out_of_bounds, range, slice_get, contains, contained_by, contains_index,
  from_usize,
}

-- A range with both bounds, in order, is contained in `..len` exactly if `slice_get` does not
-- refuse to cut a slice of that length by it.
pub contained_by-iff-slice_get :
    (a b : ℕ) (xs : List ℕ)
    → a ≤ b
    → (contained_by (range (some a) (some b)) (range none (some (length xs))) ≡ true) ↔ (
        slice_get (range (some a) (some b)) xs
        ≢ err (out_of_bounds (range (some a) (some b)) 0 (length xs)))
unfolding contained_by slice_get
contained_by-iff-slice_get a b xs h = ground arith

-- A range without an end that starts behind the end of a slice counts as contained in `..len`,
-- although the slice cannot be cut by it.
pub contained_by_open_range :
    (a : ℕ) (xs : List ℕ)
    → length xs < a
    → (contained_by (range (some a) none) (range none (some (length xs))) ≡ true)
      × (slice_get (range (some a) none) xs
          ≡ err (out_of_bounds (range (some a) none) 0 (length xs)))
unfolding contained_by slice_get
contained_by_open_range a xs h = ground arith

-- Away from the end of the range, `contains_index` is `contains` at the one index.
pub contains_index-eq-contains :
    (s e : Option ℕ) (i : ℕ) {r : Range}
    → from_usize i ≡ some r
    → e ≢ some i
    → contains_index (range s e) i ≡ contains (range s e) r
unfolding from_usize contains contains_index
contains_index-eq-contains none none i h k = ground arith
contains_index-eq-contains none (some e) i h k = ground arith
contains_index-eq-contains (some s) none i h k = ground arith
contains_index-eq-contains (some s) (some e) i h k = ground arith

-- At the end of a range that starts at or before it, `contains_index` says true, although
-- `contains` says that the range of that one index is not contained.
pub contains_index_end :
    (s : Option ℕ) (i : ℕ) {r : Range}
    → from_usize i ≡ some r
    → unwrap_or 0 s ≤ i
    → (contains_index (range s (some i)) i ≡ true) × (contains (range s (some i)) r ≡ false)
unfolding from_usize contains contains_index
contains_index_end none i h k = ground arith
contains_index_end (some s) i h k = ground arith
