-- ===== src/Rope/Bounds.antt =====
-- `find_segment` and `segment_bounds_unchecked` on segments whose offsets are the lengths before them.
use byst.Prelude.{
  ℕ, zero, suc, ◌+◌, ◌-◌, ◌≤◌, ◌<◌, ◌≡◌, refl, sym, ap, ◌∙◌, Bool, true, false, some, List, [], ◌∷◌,
  arith, le→leb, lt→==, get_elem?, drop,
}
use byst.Rope.{Segment, place, find_segment, segment_bounds_unchecked, bounds}
use byst.Rope.Search.{binary_search_by_lem}
use byst.Rope.Offsets.{
  IsOffsets, total, end, place-IsOrdered, start_exists, end_exists, starts-place, ends-place,
  drop-IsOffsets,
}

get_elem?-drop :
    {A : Type 0} (i j : ℕ) (xs : List A) → get_elem? (drop i xs) j ≡ get_elem? xs (j + i)
get_elem?-drop zero j xs = ap (get_elem? xs) {y = j + 0} (omega arith)
get_elem?-drop (suc i) j [] = refl
get_elem?-drop (suc i) j (x ∷ xs) =
    get_elem?-drop i j xs ∙ ap (get_elem? (x ∷ xs)) {x = suc (j + i)} {y = j + suc i} (omega arith)

module _ {B : Type 0} (len : B → ℕ) where
  abbrev pub Place : Bool → ℕ → Segment B → Type 0
  Place true n a = (a.offset ≤ n) × (n < end len a)
  Place false n a = (a.offset ≤ n) × (n ≤ end len a)

  -- The segment that is found.
  pub record Found (spill : Bool) (n : ℕ) (ss : List (Segment B)) : Type 0 where
    pub index : ℕ
    pub segment : Segment B
    pub finds : find_segment ss n spill (bounds len) ≡ some index
    pub at_index : get_elem? ss index ≡ some segment
    pub lies : Place spill n segment

  pub find_start :
      (o n : ℕ) (ss : List (Segment B))
      → IsOffsets len o ss
      → o ≤ n
      → n < o + total len ss
      → Found true n ss
  unfolding find_segment
  find_start o n ss v h k =
      let (i, a, g, p) = start_exists len o n ss v h k in
      let w =
        binary_search_by_lem (place (bounds len) n true) ss (place-IsOrdered len o n true ss v) i a
          g p in
      record {
        index = w.index;
        segment = w.element;
        finds = w.finds;
        at_index = w.at_index;
        lies = starts-place n w.element.offset (end len w.element) (omega arith) w.is_equal;
      }

  pub find_end :
      (o n : ℕ) (ss : List (Segment B))
      → IsOffsets len o ss
      → o < n
      → n ≤ o + total len ss
      → Found false n ss
  unfolding find_segment
  find_end o n ss v h k =
      let (i, a, g, p) = end_exists len o n ss v h k in
      let w =
        binary_search_by_lem (place (bounds len) n false) ss (place-IsOrdered len o n false ss v) i
          a g p in
      record {
        index = w.index;
        segment = w.element;
        finds = w.finds;
        at_index = w.at_index;
        lies = ends-place n w.element.offset (end len w.element) (omega arith) w.is_equal;
      }

  -- What `segment_bounds_unchecked` finds for a part that is not empty: the segment at which it
  -- starts, the one at which it ends counted from there, and the offsets in them.
  pub record Bounded (start stop : ℕ) (ss : List (Segment B)) : Type 0 where
    pub from : ℕ
    pub up_to : ℕ
    pub starts : Segment B
    pub ends : Segment B
    pub at_from : get_elem? ss from ≡ some starts
    pub at_up_to : get_elem? (drop from ss) up_to ≡ some ends
    pub start_lies : (starts.offset ≤ start) × (start < end len starts)
    pub end_lies : (ends.offset ≤ stop) × (stop ≤ end len ends)
    pub bounded :
        segment_bounds_unchecked ss start stop (bounds len)
        ≡ some (
            some (record {
              start_segment = from;
              start_offset = start - starts.offset;
              end_segment = up_to + from;
              end_offset = stop - ends.offset;
            }))

  pub segment_bounds_lem :
      (o start stop : ℕ) (ss : List (Segment B))
      → IsOffsets len o ss
      → o ≤ start
      → start < stop
      → stop ≤ o + total len ss
      → Bounded start stop ss
  unfolding segment_bounds_unchecked
  segment_bounds_lem o start stop ss v h k l =
      let s = find_start o start ss v h (omega arith) in
      let (x, y) = s.lies in
      let (w, f, t) = drop-IsOffsets len o s.index ss s.segment v s.at_index in
      let e = find_end s.segment.offset stop (drop s.index ss) w (omega arith) (omega arith) in
      record {
        from = s.index;
        up_to = e.index;
        starts = s.segment;
        ends = e.segment;
        at_from = s.at_index;
        at_up_to = e.at_index;
        start_lies = s.lies;
        end_lies = e.lies;
        bounded =
            rw
              (
                lt→== start stop k,
                s.finds,
                s.at_index,
                le→leb s.segment.offset start x,
                e.finds,
                sym (get_elem?-drop s.index e.index ss) ∙ e.at_index,
                le→leb e.segment.offset stop e.lies.0,
              )
              refl;
      }
