-- ===== src/Iter/Chunks/All.antt =====
-- What the iterators of byst/src/buf/chunks.rs run over.
use byst.Prelude.{
  lt→ltb, usize_mod, and_then, ℕ, zero, suc, ◌+◌, ◌<◌, ◌≡◌, refl, sym, ap, ◌∙◌, ◌⊎◌, inl, inr, true,
  false, Option, none, some, List, [], ◌∷◌, arith, ◌==◌, Bool-cases, length, take, drop,
}
use byst.Io.Interface.{BufReader}
use byst.Io.Laws.{Peeks, IsCursor}
use byst.Iter.{DoubleEnded, Front, IsDeque}
use byst.Iter.Chunks.{
  Byte, byte, done, expected, next_byte_of, next_byte, collected, then_collect, collect, filtered,
  next_non_empty, offset_of, then_item, next_with_offset, collect_with_offset,
}

module _ {S V : Type 0} {r : BufReader S V} (l : IsCursor r) where
  open l use {contents}

  drop-first : (x : ℕ) (c xs : List ℕ) → x ∷ c ≡ take (suc (length c)) xs → xs ≡ x ∷ drop 1 xs
  drop-first x c [] h = absurd (omega (arith, ap length h))
  drop-first x c (y ∷ ys) h = cc

  -- A byte is the first of the contents, and the reader is then at the others.
  abbrev Next : Byte S → List ℕ → Type 0
  Next (byte x s) xs = l.valid s × (xs ≡ x ∷ contents s)
  Next (done s) xs = xs ≡ []
  Next expected xs = 0 < 0

  Next-of :
      (s : S) (p : Option (List ℕ))
      → l.valid s
      → Peeks p (contents s)
      → Next (next_byte_of r p s) (contents s)
  unfolding next_byte_of
  Next-of s none v h = h
  Next-of s (some []) v (h, _, _) = absurd (omega arith)
  Next-of s (some (x ∷ c)) v (h, e, le) =
      let (s', go, v', k) = l.advances 1 s v (omega arith) in
      rw go (v', drop-first x c (contents s) e ∙ ap (x ∷◌) (sym k))

  next_byte-Next : (s : S) → l.valid s → Next (next_byte r s) (contents s)
  unfolding next_byte
  next_byte-Next s v = Next-of s (r.peek_chunk s) v (l.peeks s v)

  collect-of :
      (n : ℕ) (xs : List ℕ) (b : Byte S)
      → ((s : S) → l.valid s → length (contents s) < n → collect r n s ≡ some (contents s))
      → Next b xs
      → length xs < suc n
      → then_collect r (collect r n) b ≡ some xs
  collect-of n xs (byte x s) ih (v, e) h =
      ap (collected r x) (ih s v (omega (arith, ap length e))) ∙ ap some (sym e)
  collect-of n xs (done s) ih e h = ap some (sym e)
  collect-of n xs expected ih e h = absurd (omega arith)

  -- Iterating over the bytes of a reader that keeps its contract ends after one call more than
  -- it has bytes, panics nowhere, and yields its bytes in order.
  pub collect-contents :
      (n : ℕ) (s : S) → l.valid s → length (contents s) < n → collect r n s ≡ some (contents s)
  unfolding collect
  collect-contents zero s v h = absurd (omega arith)
  collect-contents (suc n) s v h =
      collect-of n (contents s) (next_byte r s) (collect-contents n) (next_byte-Next s v) h

-- every chunk with the number of bytes before it
unfoldable pub offsets : {A : Type 0} → (A → ℕ) → ℕ → List A → List (ℕ × A)
offsets len offset [] = []
offsets len offset (x ∷ xs) = (offset, x) ∷ offsets len (offset + len x) xs

of_zero : {a : ℕ} → (a == 0) ≡ true → a ≡ 0
of_zero {a = a} e = ground arith

of_nonzero : {a : ℕ} → (a == 0) ≡ false → 0 < a
of_nonzero {a = a} e = ground arith

module _ {I A : Type 0} {d : DoubleEnded I A} (q : IsDeque d) (len : A → ℕ) where
  open q use {items}

  -- the lengths of the chunks that are left
  abbrev pub sum_of : List A → ℕ
  sum_of [] = 0
  sum_of (x ∷ xs) = len x + sum_of xs

  offsets-of :
      (n offset : ℕ) (o : Option A × I) (xs : List A)
      → ((i : I) (offset : ℕ)
          → length (items i) < n
          → offset + sum_of (items i) < usize_mod
          → collect_with_offset d len n (i, offset) ≡ some (offsets len offset (items i)))
      → Front items o xs
      → length xs < suc n
      → offset + sum_of xs < usize_mod
      → then_item d len (collect_with_offset d len n) (offset_of d len o offset)
        ≡ some (offsets len offset xs)
  unfolding offsets
  offsets-of n offset (none, i) xs ih (e, _) h k = rw e refl
  offsets-of n offset (some x, i) xs ih e h k =
      let l : offset + (len x + sum_of (items i)) < usize_mod = omega (arith, ap sum_of e, k) in
      rw (e, lt→ltb (offset + len x) usize_mod (omega (arith, l)))
        (ap (λ o. and_then o (λ xs. some ((offset, x) ∷ xs)))
          (ih i (offset + len x) (omega (arith, ap length e)) (omega (arith, l))))

  -- Over a fused iterator whose chunks end at a `usize`, `WithOffset` yields every chunk, in order,
  -- with the initial offset plus the lengths of the chunks before it.
  pub collect_with_offset-offsets :
      (n : ℕ) (i : I) (offset : ℕ)
      → length (items i) < n
      → offset + sum_of (items i) < usize_mod
      → collect_with_offset d len n (i, offset) ≡ some (offsets len offset (items i))
  unfolding collect_with_offset next_with_offset offsets
  collect_with_offset-offsets zero i offset h k = absurd (omega arith)
  collect_with_offset-offsets (suc n) i offset h k =
      offsets-of n offset (d.next i) (items i) (collect_with_offset-offsets n) (q.fronts i) h k

  abbrev pub Filtered : Option A × I → List A → Type 0
  Filtered (none, i) xs =
      ((xs ≡ []) × (items i ≡ [])) ⊎ ((x : A) × (len x ≡ 0) × (xs ≡ x ∷ items i))
  Filtered (some x, i) xs = (0 < len x) × (xs ≡ x ∷ items i)

  filtered-Filtered :
      (o : Option A × I) (xs : List A) → Front items o xs → Filtered (filtered d len o) xs
  filtered-Filtered (none, i) xs h = inl h
  filtered-Filtered (some x, i) xs h = elim (Bool-cases (len x == 0)) [
    | inl e ↦ rw e (inr (x, of_zero e, h))
    | inr e ↦ rw e (of_nonzero e, h)
  ]

  -- Over a fused iterator, a chunk that `NonEmpty::next` yields is the first one and is not
  -- empty; where it yields none, no chunk is left, or the first one is empty, is skipped, and
  -- the chunks after it are left.
  pub next_non_empty-Filtered : (i : I) → Filtered (next_non_empty d len i) (items i)
  unfolding next_non_empty
  next_non_empty-Filtered i = filtered-Filtered (d.next i) (items i) (q.fronts i)
