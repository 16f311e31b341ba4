-- ===== src/Rope/Agree.antt =====
-- A rope under `push`, and its views and theirs beside the parts of a slice.
use byst.Prelude.{
  ℕ, ◌+◌, ◌-◌, ◌≤◌, ◌<◌, ◌≡◌, refl, sym, ap, ap₂, ◌∙◌, subst, inl, inr, Option, none, some, List,
  [], ◌∷◌, ◌++◌, append-nil, append_assoc, arith, lt→ltb, eq→==, gt→==, le-or-lt, usize_mod,
  checked_add, length, take, drop, eq-nil_of_length, Result, ok, err, panic, or_panic, ◌>>=◌,
  and_then, IsNoPanic,
}
use byst.Range.{RangeOutOfBounds, range, indices_checked_in, slice_get}
use byst.Range.Indices.{IsUsize, slice_get-eq-indices, indices_checked_in_iff, part}
use byst.Rope.{
  Segment, Rope, View, first, last, end_of, view_unchecked, view_checked, view_view, rope_len,
  first_offset, push,
}
use byst.Rope.Offsets.{IsOffsets, total}
use byst.Rope.Views.{contents, length-contents, Shows, view_unchecked_lem, cut_again}

module _ {B : Type 0} (len : B → ℕ) where
  -- The offsets of the segments are the lengths before them, and the length is a `usize`.
  pub record IsRope (r : Rope B) : Type 0 where
    pub offsets : IsOffsets len 0 r.segments
    pub small : total len r.segments < usize_mod

  end_of-last :
      (o : ℕ) (s : Segment B) (ss : List (Segment B))
      → IsOffsets len o (s ∷ ss)
      → o + total len (s ∷ ss) < usize_mod
      → end_of len (last (s ∷ ss)) ≡ some (o + total len (s ∷ ss))
  end_of-last o s [] (e, v) h =
      rw (lt→ltb (s.offset + len s.buf) usize_mod (omega arith)) (ap some (omega arith))
  end_of-last o s (t ∷ ss) (e, v) h =
      end_of-last (o + len s.buf) t ss v (omega arith) ∙ ap some (omega arith)

  end_of-segments :
      (ss : List (Segment B))
      → IsOffsets len 0 ss
      → total len ss < usize_mod
      → end_of len (last ss) ≡ some (total len ss)
  end_of-segments [] v h = refl
  end_of-segments (s ∷ ss) v h = end_of-last 0 s ss v (omega arith) ∙ ap some (omega arith)

  pub rope_len_lem : (r : Rope B) → IsRope r → rope_len len r ≡ some (total len r.segments)
  unfolding rope_len
  rope_len_lem r v = end_of-segments r.segments v.offsets v.small

  append-IsOffsets :
      (o n : ℕ) (ss : List (Segment B)) (b : B)
      → IsOffsets len o ss
      → n ≡ o + total len ss
      → IsOffsets len o (ss ++ (record { offset = n; buf = b } ∷ []))
        × (total len (ss ++ (record { offset = n; buf = b } ∷ [])) ≡ total len ss + len b)
  append-IsOffsets o n [] b v k = ((omega arith, tt), omega arith)
  append-IsOffsets o n (s ∷ ss) b (e, v) k =
      let (x, y) = append-IsOffsets (o + len s.buf) n ss b v (omega arith) in ((e, x), omega arith)

indices-IsNoPanic :
    (s e : Option ℕ) (n : ℕ) → IsUsize (range s e) → IsNoPanic (indices_checked_in (range s e) 0 n)
unfolding indices_checked_in
indices-IsNoPanic none none n h = tt
indices-IsNoPanic none (some e) n h = ground arith
indices-IsNoPanic (some s) none n h = ground arith
indices-IsNoPanic (some s) (some e) n h = ground arith

module _ {B : Type 0} (len : B → ℕ) (bytes : B → List ℕ)
    (len_lem : (b : B) → length (bytes b) ≡ len b) where
  abbrev all : Rope B → List ℕ
  all r = contents len bytes len_lem r.segments

  contents-append :
      (ss : List (Segment B)) (s : Segment B)
      → contents len bytes len_lem (ss ++ (s ∷ [])) ≡ contents len bytes len_lem ss ++ bytes s.buf
  contents-append [] s = append-nil (bytes s.buf)
  contents-append (t ∷ ss) s =
      ap (bytes t.buf ++◌) (contents-append ss s)
      ∙ sym (append_assoc (bytes t.buf) (contents len bytes len_lem ss) (bytes s.buf))

  -- `push` onto a rope whose offsets are the lengths before them, and whose length with the new
  -- buffer is a `usize`, returns a rope of that kind, whose bytes are those of the rope and then
  -- those of the buffer.
  pub push_lem :
      (b : B) (r : Rope B)
      → IsRope len r
      → total len r.segments + len b < usize_mod
      → (q : Rope B) × (push len b r ≡ some q) × IsRope len q × (all q ≡ all r ++ bytes b)
  unfolding push
  push_lem b r v h =
      let n = total len r.segments in
      let s : Segment B = record { offset = n; buf = b } in
      elim (le-or-lt (len b) 0) [
        | inl z ↦
            let e : bytes b ≡ [] = eq-nil_of_length (bytes b) (omega (arith, len_lem b)) in
            (
              r,
              rw (eq→== (len b) 0 (omega arith)) refl,
              v,
              sym (append-nil (all r)) ∙ ap (all r ++◌) (sym e),
            )
        | inr z ↦
            let (x, y) = append-IsOffsets len 0 n r.segments b v.offsets (omega arith) in
            (
              record { segments = r.segments ++ (s ∷ []) },
              rw (gt→== (len b) 0 z, rope_len_lem len r v) refl,
              record { offsets = x; small = omega (arith, y) },
              contents-append r.segments s,
            )
      ]

  -- The outcome of a view of a rope, beside that of the same view of its bytes as a slice.
  abbrev pub Agrees : Result RangeOutOfBounds (View B) → Result RangeOutOfBounds (List ℕ) → Type 0
  Agrees (ok v) (ok xs) = Shows len bytes len_lem v xs
  Agrees (err e) (err d) = e ≡ d
  Agrees _ _ = ⊥

  index-cases :
      (s e : Option ℕ) (xs : List ℕ) (i : Result RangeOutOfBounds (ℕ × ℕ))
      → indices_checked_in (range s e) 0 (length xs) ≡ i
      → IsNoPanic i
      → length xs < usize_mod
      → (f : ℕ → ℕ → Result RangeOutOfBounds (View B))
      → ((i j : ℕ) → i ≤ j → j ≤ length xs → Agrees (f i j) (ok (part xs (i, j))))
      → Agrees (i >>= λ (i, j). f i j) (i >>= λ ij. ok (part xs ij))
  index-cases s e xs panic k n h f g = absurd n
  index-cases s e xs (err d) k n h f g = refl
  index-cases s e xs (ok (i, j)) k n h f g =
      let (_, _, x, y) = (indices_checked_in_iff s e 0 (length xs) i j (omega arith) h).0 k in
      g i j x y

  -- The indices of a range, whichever way they are used.
  index-Agrees :
      (s e : Option ℕ) (xs : List ℕ)
      → IsUsize (range s e)
      → length xs < usize_mod
      → (f : ℕ → ℕ → Result RangeOutOfBounds (View B))
      → ((i j : ℕ) → i ≤ j → j ≤ length xs → Agrees (f i j) (ok (part xs (i, j))))
      → Agrees
          (indices_checked_in (range s e) 0 (length xs) >>= λ (i, j). f i j)
          (slice_get (range s e) xs)
  index-Agrees s e xs u h f g =
      subst (Agrees (indices_checked_in (range s e) 0 (length xs) >>= λ (i, j). f i j))
        (sym (slice_get-eq-indices s e xs u))
        (index-cases s e xs (indices_checked_in (range s e) 0 (length xs)) refl
          (indices-IsNoPanic s e (length xs) u) h f g)

  -- On a rope whose offsets are the lengths before them and whose length is a `usize`, a view of
  -- a range of `usize` bounds shows what `slice_get` cuts from the joined bytes, and fails with
  -- the same error where that fails; it does not panic.
  pub rope_view-Agrees :
      (r : Rope B) (s e : Option ℕ)
      → IsRope len r
      → IsUsize (range s e)
      → Agrees (view_checked len (range s e) r) (slice_get (range s e) (all r))
  unfolding view_checked
  rope_view-Agrees r s e v u =
      let l : length (all r) ≡ total len r.segments =
        length-contents len bytes len_lem r.segments in
      rw (rope_len_lem len r v, sym l)
        (index-Agrees s e (all r) u (omega (arith, l, v.small))
          (λ i j. or_panic (view_unchecked len r.segments i j) ok)
          (λ i j h k.
            let (w, q, x) =
              view_unchecked_lem len bytes len_lem 0 i j r.segments v.offsets (omega arith)
                (omega arith) (omega (arith, v.small)) h in
            rw q (
              subst (λ n. Shows len bytes len_lem w (take (j - i) (drop n (all r)))) {x = i - 0}
                (omega arith) x)))

  -- On a view of a rope that shows some bytes, a view of a range of `usize` bounds shows what
  -- `slice_get` cuts from these bytes, and fails with the same error where that fails; it does
  -- not panic.
  pub view_view-Agrees :
      (v : View B) (xs : List ℕ) (s e : Option ℕ)
      → Shows len bytes len_lem v xs
      → IsUsize (range s e)
      → Agrees (view_view len (range s e) v) (slice_get (range s e) xs)
  unfolding view_view
  view_view-Agrees v xs s e w u =
      let base = first_offset len (first v.segments) in
      let l = length-contents len bytes len_lem v.segments in
      let small : base + total len v.segments < usize_mod = w.small in
      let within : v.start_offset + length xs ≤ total len v.segments = w.within in
      rw w.length_lem (
        index-Agrees s e xs u (omega arith)
          (λ i j. or_panic (and_then (checked_add i base) (λ a. checked_add a v.start_offset)) (λ a.
            or_panic (and_then (checked_add j base) (λ b. checked_add b v.start_offset))
              (λ b. or_panic (view_unchecked len v.segments a b) ok)))
          (λ i j h k.
            let (x, q, y) =
              view_unchecked_lem len bytes len_lem base (i + base + v.start_offset)
                (j + base + v.start_offset) v.segments w.offsets (omega arith) (omega arith) small
                (omega arith) in
            rw
              (
                lt→ltb (i + base) usize_mod (omega arith),
                lt→ltb (i + base + v.start_offset) usize_mod (omega arith),
                lt→ltb (j + base) usize_mod (omega arith),
                lt→ltb (j + base + v.start_offset) usize_mod (omega arith),
                q,
              )
              (subst (Shows len bytes len_lem x)
                (ap₂ (λ n m. take n (drop m (contents len bytes len_lem v.segments)))
                    {x = j + base + v.start_offset - (i + base + v.start_offset)} {y = j - i}
                    {u = i + base + v.start_offset - base} {v = v.start_offset + i} (omega arith)
                    (omega arith)
                  ∙ sym (
                      cut_again (length xs) v.start_offset i (j - i)
                        (contents len bytes len_lem v.segments)
                        (drop v.start_offset (contents len bytes len_lem v.segments)) refl
                        (omega arith))
                  ∙ ap (λ ys. take (j - i) (drop i ys)) (sym w.shows))
                y)))
