-- ===== src/Rope/Offsets.antt =====
-- Segments whose offsets are the lengths before them: their order, and what a cut leaves of them.
use byst.Prelude.{
  ℕ, zero, suc, ◌+◌, ◌≤◌, ◌<◌, ◌≡◌, refl, sym, ap, subst, inl, inr, Bool, true, false, some, List,
  [], ◌∷◌, arith, le-or-lt, get_elem?, take, drop,
}
use byst.Rope.{Segment, equal, cmp, place, placed, first, last, bounds}
use byst.Rope.Search.{rank, IsOrdered}

-- Where a segment is equal to an offset, with and without its end.
pub place-orders :
    (n s e s' e' : ℕ) (spill : Bool)
    → s ≤ e
    → s ≤ s'
    → e ≤ e'
    → rank (placed spill (cmp n s) (cmp n e)) ≤ rank (placed spill (cmp n s') (cmp n e'))
place-orders n s e s' e' spill h k l = ground arith

pub place-starts : (n s e : ℕ) → s ≤ n → n < e → placed true (cmp n s) (cmp n e) ≡ equal
place-starts n s e h k = ground arith

pub place-ends : (n s e : ℕ) → s < n → n ≤ e → placed false (cmp n s) (cmp n e) ≡ equal
place-ends n s e h k = ground arith

pub starts-place : (n s e : ℕ) → s ≤ e → placed true (cmp n s) (cmp n e) ≡ equal → (s ≤ n) × (n < e)
starts-place n s e l h = ground arith

pub ends-place : (n s e : ℕ) → s ≤ e → placed false (cmp n s) (cmp n e) ≡ equal → (s ≤ n) × (n ≤ e)
ends-place n s e l h = ground arith

module _ {B : Type 0} (len : B → ℕ) where
  -- The segments lie one after the other, from an offset on.
  abbrev pub IsOffsets : ℕ → List (Segment B) → Type 0
  IsOffsets o [] = Unit
  IsOffsets o (s ∷ ss) = (s.offset ≡ o) × IsOffsets (o + len s.buf) ss

  abbrev pub total : List (Segment B) → ℕ
  total [] = 0
  total (s ∷ ss) = len s.buf + total ss

  abbrev pub end : Segment B → ℕ
  end s = s.offset + len s.buf

  pub offset_within :
      (o i : ℕ) (ss : List (Segment B)) (a : Segment B)
      → IsOffsets o ss
      → get_elem? ss i ≡ some a
      → (o ≤ a.offset) × (end a ≤ o + total ss)
  offset_within o i [] a v g = absurd cc
  offset_within o zero (s ∷ ss) a (e, v) g =
      let k : s ≡ a = cc in (omega (arith, ap (λ x. x.offset) k), omega (arith, ap end k, e))
  offset_within o (suc i) (s ∷ ss) a (e, v) g =
      let (h, k) = offset_within (o + len s.buf) i ss a v g in (omega arith, omega arith)

  pub offsets_ordered :
      (o i j : ℕ) (ss : List (Segment B)) (a b : Segment B)
      → IsOffsets o ss
      → i ≤ j
      → get_elem? ss i ≡ some a
      → get_elem? ss j ≡ some b
      → (a.offset ≤ b.offset) × (end a ≤ end b)
  offsets_ordered o i j [] a b v h g k = absurd cc
  offsets_ordered o zero zero (s ∷ ss) a b v h g k =
      let e : a ≡ b = cc in (omega (arith, ap (λ x. x.offset) e), omega (arith, ap end e))
  offsets_ordered o zero (suc j) (s ∷ ss) a b (e, v) h g k =
      let q : s ≡ a = cc in
      let (l, _) = offset_within (o + len s.buf) j ss b v k in
      (omega (arith, ap (λ x. x.offset) q), omega (arith, ap end q))
  offsets_ordered o (suc i) zero (s ∷ ss) a b v h g k = absurd (omega arith)
  offsets_ordered o (suc i) (suc j) (s ∷ ss) a b (e, v) h g k =
      offsets_ordered (o + len s.buf) i j ss a b v (omega arith) g k

  pub place-IsOrdered :
      (o n : ℕ) (spill : Bool) (ss : List (Segment B))
      → IsOffsets o ss
      → IsOrdered (place (bounds len) n spill) ss
  place-IsOrdered o n spill ss v i j a b h g k =
      let (x, y) = offsets_ordered o i j ss a b v h g k in
      place-orders n a.offset (end a) b.offset (end b) spill (omega arith) x y

  -- the segment in which an offset lies, and the one up to whose end it does
  pub start_exists :
      (o n : ℕ) (ss : List (Segment B))
      → IsOffsets o ss
      → o ≤ n
      → n < o + total ss
      → (i : ℕ) × (a : Segment B) × (get_elem? ss i ≡ some a)
        × (place (bounds len) n true a ≡ equal)
  start_exists o n [] v h k = absurd (omega arith)
  start_exists o n (s ∷ ss) (e, v) h k = elim (le-or-lt (o + len s.buf) n) [
    | inl l ↦
        let (i, a, g, p) = start_exists (o + len s.buf) n ss v l (omega arith) in (suc i, a, g, p)
    | inr l ↦ (0, s, refl, place-starts n s.offset (end s) (omega arith) (omega arith))
  ]

  pub end_exists :
      (o n : ℕ) (ss : List (Segment B))
      → IsOffsets o ss
      → o < n
      → n ≤ o + total ss
      → (i : ℕ) × (a : Segment B) × (get_elem? ss i ≡ some a)
        × (place (bounds len) n false a ≡ equal)
  end_exists o n [] v h k = absurd (omega arith)
  end_exists o n (s ∷ ss) (e, v) h k = elim (le-or-lt n (o + len s.buf)) [
    | inr l ↦
        let (i, a, g, p) = end_exists (o + len s.buf) n ss v l (omega arith) in (suc i, a, g, p)
    | inl l ↦ (0, s, refl, place-ends n s.offset (end s) (omega arith) (omega arith))
  ]

  -- The segments from one on, and up to one.
  pub drop-IsOffsets :
      (o i : ℕ) (ss : List (Segment B)) (a : Segment B)
      → IsOffsets o ss
      → get_elem? ss i ≡ some a
      → IsOffsets a.offset (drop i ss)
        × (first (drop i ss) ≡ some a)
        × (a.offset + total (drop i ss) ≡ o + total ss)
  drop-IsOffsets o i [] a v g = absurd cc
  drop-IsOffsets o zero (s ∷ ss) a (e, v) g =
      let k : s ≡ a = cc in
      subst
        (λ a.
          IsOffsets a.offset (s ∷ ss)
          × (some s ≡ some a)
          × (a.offset + total (s ∷ ss) ≡ o + total (s ∷ ss)))
        k ((refl, subst (λ n. IsOffsets (n + len s.buf) ss) (sym e) v), refl, omega arith)
  drop-IsOffsets o (suc i) (s ∷ ss) a (e, v) g =
      let (x, y, z) = drop-IsOffsets (o + len s.buf) i ss a v g in (x, y, omega arith)

  pub take-IsOffsets : (o k : ℕ) (ss : List (Segment B)) → IsOffsets o ss → IsOffsets o (take k ss)
  take-IsOffsets o zero ss v = tt
  take-IsOffsets o (suc k) [] v = tt
  take-IsOffsets o (suc k) (s ∷ ss) (e, v) = (e, take-IsOffsets (o + len s.buf) k ss v)

  pub take-last :
      (o k : ℕ) (ss : List (Segment B)) (b : Segment B)
      → IsOffsets o ss
      → get_elem? ss k ≡ some b
      → (last (take (suc k) ss) ≡ some b) × (o + total (take (suc k) ss) ≡ end b)
  take-last o k [] b v g = absurd cc
  take-last o zero (s ∷ ss) b (e, v) g =
      let q : s ≡ b = cc in (ap some q, omega (arith, ap end q, e))
  take-last o (suc k) (s ∷ []) b (e, v) g = absurd cc
  take-last o (suc k) (s ∷ t ∷ ss) b (e, v) g =
      let (x, y) = take-last (o + len s.buf) k (t ∷ ss) b v g in (x, omega arith)
