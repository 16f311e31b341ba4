-- ===== src/Tests/Ranges.antt =====
-- Ranges of byst/src/range.rs.
use byst.Prelude.{ℕ, ◌≤◌, ◌≡◌, ◌≢◌, ◌↔◌, true, none, some, List, [], ◌∷◌, arith, ok, err}
use byst.Range.{range, out_of_bounds, indices_checked_in, slice_get, contained_by}
use byst.Range.Indices.{indices_checked_in_iff}
use byst.Range.Contains.{contained_by-iff-slice_get}

abbrev word : List ℕ
word = 7 ∷ 8 ∷ 9 ∷ []

indices_checked_in_iff_example :
    (indices_checked_in (range (some 1) (some 3)) 10 20 ≡ ok (11, 13))
    ↔ ((◌≡◌ {A = ℕ} 11 11) × (◌≡◌ {A = ℕ} 13 13) × (11 ≤ 13) × (13 ≤ 20))
indices_checked_in_iff_example =
    indices_checked_in_iff (some 1) (some 3) 10 20 11 13 (omega arith) (omega arith)

contained_by-iff-slice_get_example :
    (contained_by (range (some 1) (some 3)) (range none (some 3)) ≡ true)
    ↔ (slice_get (range (some 1) (some 3)) word ≢ err (out_of_bounds (range (some 1) (some 3)) 0 3))
contained_by-iff-slice_get_example = contained_by-iff-slice_get 1 3 word (omega arith)
