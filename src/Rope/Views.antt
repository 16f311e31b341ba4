-- ===== src/Rope/Views.antt =====
-- The bytes of a rope and of its views.
use byst.Prelude.{
  ℕ, zero, suc, ◌+◌, ◌-◌, ◌≤◌, ◌<◌, min, ◌≡◌, refl, sym, ap, ap₂, ◌∙◌, subst, inl, inr, none, some,
  List, [], ◌∷◌, ◌++◌, arith, lt→ltb, le→leb, eq→==, le-or-lt, usize_mod, length, get_elem?, take,
  drop, length-append, take-add, drop-take, length-take, length-drop, drop-drop, take-append,
  drop-append, take-take,
}
use byst.Rope.{
  Segment, View, segment_bounds_unchecked, first, viewed, view_unchecked, view_len, first_offset,
}
use byst.Rope.Offsets.{IsOffsets, total, offset_within, drop-IsOffsets, take-IsOffsets, take-last}
use byst.Rope.Bounds.{Bounded, segment_bounds_lem}

drop-append-beyond :
    {A : Type 0} (n : ℕ) (xs ys : List A)
    → length xs ≤ n
    → drop n (xs ++ ys) ≡ drop (n - length xs) ys
drop-append-beyond n xs ys h =
    ap (λ k. drop k (xs ++ ys)) {x = n} {y = length xs + (n - length xs)} (omega arith)
    ∙ sym (drop-drop (n - length xs) (length xs) (xs ++ ys))
    ∙ ap (drop (n - length xs)) (drop-append xs ys)

take-append-beyond :
    {A : Type 0} (n : ℕ) (xs ys : List A) → take (length xs + n) (xs ++ ys) ≡ xs ++ take n ys
take-append-beyond n xs ys =
    sym (take-add (length xs) n (xs ++ ys))
    ∙ ap₂ (λ a b. a ++ take n b) (take-append xs ys) (drop-append xs ys)

first-take :
    {A : Type 0} (n : ℕ) (xs : List A) (a : A)
    → first xs ≡ some a
    → first (take (suc n) xs) ≡ some a
first-take n [] a h = h
first-take n (x ∷ xs) a h = h

-- A cut of a list that is cut already.
pub cut_again :
    (t n m k : ℕ) (xs ys : List ℕ)
    → ys ≡ drop n xs
    → m + k ≤ t
    → take k (drop m (take t ys)) ≡ take k (drop (n + m) xs)
cut_again t n m k xs ys e h =
    ap (take k) (drop-take m t ys)
    ∙ take-take k (t - m) (drop m ys)
    ∙ ap₂ (λ j zs. take j (drop m zs)) {x = min k (t - m)} {y = k} (omega arith) e
    ∙ ap (take k) (drop-drop m n xs)

module _ {B : Type 0} (len : B → ℕ) (bytes : B → List ℕ)
    (len_lem : (b : B) → length (bytes b) ≡ len b) where
  -- the bytes of segments
  abbrev pub contents : List (Segment B) → List ℕ
  contents [] = []
  contents (s ∷ ss) = bytes s.buf ++ contents ss

  pub length-contents : (ss : List (Segment B)) → length (contents ss) ≡ total len ss
  length-contents [] = refl
  length-contents (s ∷ ss) =
      omega (arith, length-append (bytes s.buf) (contents ss), len_lem s.buf, length-contents ss)

  contents-drop :
      (o i : ℕ) (ss : List (Segment B)) (a : Segment B)
      → IsOffsets len o ss
      → get_elem? ss i ≡ some a
      → drop (a.offset - o) (contents ss) ≡ contents (drop i ss)
  contents-drop o i [] a v g = absurd cc
  contents-drop o zero (s ∷ ss) a (e, v) g =
      let k : s ≡ a = cc in
      ap (λ n. drop n (contents (s ∷ ss))) {x = a.offset - o} {y = 0}
        (omega (arith, ap (λ x. x.offset) k))
  contents-drop o (suc i) (s ∷ ss) a (e, v) g =
      let (h, _) = offset_within len (o + len s.buf) i ss a v g in
      drop-append-beyond (a.offset - o) (bytes s.buf) (contents ss) (omega (arith, len_lem s.buf))
      ∙ ap (λ n. drop n (contents ss)) {x = a.offset - o - length (bytes s.buf)}
          (omega (arith, len_lem s.buf))
      ∙ contents-drop (o + len s.buf) i ss a v g

  contents-take :
      (k : ℕ) (ss : List (Segment B))
      → contents (take k ss) ≡ take (total len (take k ss)) (contents ss)
  contents-take zero ss = refl
  contents-take (suc k) [] = refl
  contents-take (suc k) (s ∷ ss) =
      ap (bytes s.buf ++◌) (contents-take k ss)
      ∙ sym (take-append-beyond (total len (take k ss)) (bytes s.buf) (contents ss))
      ∙ ap (λ n. take (n + total len (take k ss)) (contents (s ∷ ss))) (len_lem s.buf)

  -- A view shows the bytes `xs`: as many as its length says, from its first offset on.
  pub record Shows (v : View B) (xs : List ℕ) : Type 0 where
    pub offsets : IsOffsets len (first_offset len (first v.segments)) v.segments
    pub small : first_offset len (first v.segments) + total len v.segments < usize_mod
    pub within : v.start_offset + length xs ≤ total len v.segments
    pub length_lem : view_len len v ≡ some (length xs)
    pub shows : xs ≡ take (length xs) (drop v.start_offset (contents v.segments))

  module _ (o start stop : ℕ) (ss : List (Segment B)) (v : IsOffsets len o ss) (h : o ≤ start)
      (l : stop ≤ o + total len ss) (small : o + total len ss < usize_mod) where
    abbrev cut : List ℕ
    cut = take (stop - start) (drop (start - o) (contents ss))

    length-cut : start ≤ stop → length cut ≡ stop - start
    length-cut k = omega (
      arith,
      length-take (stop - start) (drop (start - o) (contents ss)),
      length-drop (start - o) (contents ss),
      length-contents ss,
    )

    module _ (k : start < stop) (w : Bounded len start stop ss) where
      abbrev base : ℕ
      base = w.starts.offset

      abbrev view_of : ℕ → View B
      view_of n = record {
        segments = take n (drop w.from ss);
        start_offset = start - base;
        end_offset = stop - w.ends.offset;
      }

      view_of-Shows : Shows (view_of (suc w.up_to)) cut
      unfolding view_len
      view_of-Shows =
          let (x, y) = w.start_lies in
          let (x', y') = w.end_lies in
          let ds = drop w.from ss in
          let (i, f, t) = drop-IsOffsets len o w.from ss w.starts v w.at_from in
          let (a, b) = take-last len base w.up_to ds w.ends i w.at_up_to in
          let (q, r) = offset_within len base w.up_to ds w.ends i w.at_up_to in
          let (o', _) = offset_within len o w.from ss w.starts v w.at_from in
          let c = length-cut (omega arith) in
          let g = first-take w.up_to ds w.starts f in
          record {
            offsets = rw g (take-IsOffsets len base (suc w.up_to) ds i);
            small = rw g (omega (arith, b, r));
            within = omega (arith, c);
            length_lem =
                rw
                  (
                    g,
                    a,
                    le→leb base w.ends.offset q,
                    lt→ltb (w.ends.offset - base + (stop - w.ends.offset)) usize_mod (omega arith),
                    le→leb (start - base) (w.ends.offset - base + (stop - w.ends.offset))
                        (omega arith),
                  )
                  (ap some {x = w.ends.offset - base + (stop - w.ends.offset) - (start - base)}
                    (omega (arith, c)));
            shows =
                ap₂ (λ n m. take n (drop m (contents ss))) {x = stop - start} {y = length cut}
                  {u = start - o} {v = base - o + (start - base)} (sym c) (omega arith)
                ∙ sym (
                    cut_again (total len (take (suc w.up_to) ds)) (base - o) (start - base)
                      (length cut) (contents ss) (contents ds)
                      (sym (contents-drop o w.from ss w.starts v w.at_from)) (omega (arith, c)))
                ∙ ap (λ ys. take (length cut) (drop (start - base) ys))
                    (sym (contents-take (suc w.up_to) ds));
          }

    -- The empty view shows no bytes.
    empty-Shows : start ≡ stop → Shows (viewed len ss none) cut
    unfolding view_len
    empty-Shows e =
        let c : cut ≡ [] =
          ap (λ n. take n (drop (start - o) (contents ss))) {y = 0} (omega arith) in
        subst (Shows (viewed len ss none)) (sym c) (record {
          offsets = tt;
          small = omega arith;
          within = omega arith;
          length_lem = refl;
          shows = refl;
        })

    viewed-empty : start ≡ stop → view_unchecked len ss start stop ≡ some (viewed len ss none)
    unfolding view_unchecked segment_bounds_unchecked
    viewed-empty e = rw (eq→== start stop e) refl

    viewed-part :
        (k : start < stop) (w : Bounded len start stop ss)
        → view_unchecked len ss start stop ≡ some (view_of k w (suc w.up_to))
    unfolding view_unchecked
    viewed-part k w = rw w.bounded (
        ap (λ n. some (view_of k w n)) {x = suc (w.up_to + w.from) - w.from} {y = suc w.up_to}
          (omega arith))

    pub view_unchecked_lem :
        start ≤ stop
        → (v : View B) × (view_unchecked len ss start stop ≡ some v)
          × Shows v (take (stop - start) (drop (start - o) (contents ss)))
    view_unchecked_lem k = elim (le-or-lt stop start) [
      | inl j ↦
          let e : start ≡ stop = omega arith in (viewed len ss none, viewed-empty e, empty-Shows e)
      | inr j ↦
          let w = segment_bounds_lem len o start stop ss v h j l in
          (view_of j w (suc w.up_to), viewed-part j w, view_of-Shows j w)
    ]
