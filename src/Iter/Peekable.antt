-- ===== src/Iter/Peekable.antt =====
-- `Peekable` of byst/src/util.rs: an iterator that can be peeked from both ends.
use byst.Prelude.{◌≡◌, refl, sym, ap, Option, none, some, List, [], ◌∷◌, ◌++◌, append-nil}
use byst.Iter.{DoubleEnded, Front, Back, IsDeque}

-- `struct Peekable`
pub record Peekable (I A : Type 0) : Type 0 where
  pub inner : I
  pub peeked : Option A
  pub peeked_back : Option A

-- `Peekable::new`
abbrev pub peekable : {I A : Type 0} → I → Peekable I A
peekable i = record { inner = i; peeked = none; peeked_back = none }

module _ {I A : Type 0} (d : DoubleEnded I A) where
  -- `peek_inner` and `peek_back_inner`
  peek_inner : Peekable I A → Peekable I A
  peek_inner p = elim p.peeked [
    | some _ ↦ p
    | none ↦ record p { inner = (d.next p.inner).1; peeked = (d.next p.inner).0 }
  ]

  peek_back_inner : Peekable I A → Peekable I A
  peek_back_inner p = elim p.peeked_back [
    | some _ ↦ p
    | none ↦ record p { inner = (d.next_back p.inner).1; peeked_back = (d.next_back p.inner).0 }
  ]

  -- `Option::or`
  abbrev or : Option A → Option A → Option A
  or none b = b
  or (some a) b = some a

  -- `peek` and `peek_back`; their `_mut` twins hand out the same item for writing.
  unfoldable pub peek : Peekable I A → Option A × Peekable I A
  unfolding peek_inner
  peek p = let q = peek_inner p in (or q.peeked q.peeked_back, q)

  unfoldable pub peek_back : Peekable I A → Option A × Peekable I A
  unfolding peek_back_inner
  peek_back p = let q = peek_back_inner p in (or q.peeked_back q.peeked, q)

  -- the two calls of `or_else` in `next`, once the item that was peeked is out
  next_unpeeked : Option A × I → Option A → Option A × Peekable I A
  next_unpeeked (some x, i) b = (some x, record { inner = i; peeked = none; peeked_back = b })
  next_unpeeked (none, i) b = (b, record { inner = i; peeked = none; peeked_back = none })

  unfoldable pub next : Peekable I A → Option A × Peekable I A
  unfolding next_unpeeked
  next p = elim p.peeked [
    | some x ↦ (some x, record p { peeked = none })
    | none ↦ next_unpeeked (d.next p.inner) p.peeked_back
  ]

  next_back_unpeeked : Option A × I → Option A → Option A × Peekable I A
  next_back_unpeeked (some x, i) b = (some x, record { inner = i; peeked = b; peeked_back = none })
  next_back_unpeeked (none, i) b = (b, record { inner = i; peeked = none; peeked_back = none })

  unfoldable pub next_back : Peekable I A → Option A × Peekable I A
  unfolding next_back_unpeeked
  next_back p = elim p.peeked_back [
    | some x ↦ (some x, record p { peeked_back = none })
    | none ↦ next_back_unpeeked (d.next_back p.inner) p.peeked
  ]

abbrev pub first : {A : Type 0} → List A → Option A
first [] = none
first (x ∷ _) = some x

abbrev pub last : {A : Type 0} → List A → Option A
last [] = none
last (x ∷ []) = some x
last (_ ∷ y ∷ ys) = last (y ∷ ys)

last-snoc : {A : Type 0} → (xs : List A) (x : A) → last (xs ++ (x ∷ [])) ≡ some x
last-snoc [] x = refl
last-snoc (y ∷ []) x = refl
last-snoc (y ∷ z ∷ ys) x = last-snoc (z ∷ ys) x

-- the items of an option
abbrev pub opt : {A : Type 0} → Option A → List A
opt none = []
opt (some x) = x ∷ []

module _ {I A : Type 0} {d : DoubleEnded I A} (q : IsDeque d) where
  open q use {items}

  -- What is still to come: what was peeked, around what the inner iterator has.
  abbrev pub peekable_items : Peekable I A → List A
  peekable_items p = opt p.peeked ++ (items p.inner ++ opt p.peeked_back)

  next_unpeeked-Front :
      (o : Option A × I) (b : Option A) (xs : List A)
      → Front items o xs
      → Front peekable_items (next_unpeeked d o b) (xs ++ opt b)
  unfolding next_unpeeked
  next_unpeeked-Front (some x, i) b xs h = ap (◌++ opt b) h
  next_unpeeked-Front (none, i) none xs (e, e') = (ap (◌++ []) e, ap (◌++ []) e')
  next_unpeeked-Front (none, i) (some b) xs (e, e') = rw (e, e') refl

  -- by what was peeked
  fronts-of :
      (i : I) (a b : Option A)
      → Front peekable_items
          (next d (record { inner = i; peeked = a; peeked_back = b }))
          (peekable_items (record { inner = i; peeked = a; peeked_back = b }))
  unfolding next
  fronts-of i none b = next_unpeeked-Front (d.next i) b (items i) (q.fronts i)
  fronts-of i (some a) b = refl

  next_back_unpeeked-Back :
      (o : Option A × I) (a : Option A) (xs : List A)
      → Back items o xs
      → Back peekable_items (next_back_unpeeked d o a) (opt a ++ (xs ++ []))
  unfolding next_back_unpeeked
  next_back_unpeeked-Back (some x, i) none xs h = simp (h, append-nil)
  next_back_unpeeked-Back (some x, i) (some a) xs h = simp (h, append-nil)
  next_back_unpeeked-Back (none, i) none xs (e, e') = (ap (◌++ []) e, ap (◌++ []) e')
  next_back_unpeeked-Back (none, i) (some a) xs (e, e') = simp (e, e')

  backs-of :
      (i : I) (a b : Option A)
      → Back peekable_items
          (next_back d (record { inner = i; peeked = a; peeked_back = b }))
          (peekable_items (record { inner = i; peeked = a; peeked_back = b }))
  unfolding next_back
  backs-of i a none = next_back_unpeeked-Back (d.next_back i) a (items i) (q.backs i)
  backs-of i none (some b) = simp append-nil
  backs-of i (some a) (some b) = simp append-nil

  -- The peekable iterator takes the first of its items in front.
  pub peekable-fronts : (p : Peekable I A) → Front peekable_items (next d p) (peekable_items p)
  peekable-fronts p = fronts-of p.inner p.peeked p.peeked_back

  pub peekable-backs : (p : Peekable I A) → Back peekable_items (next_back d p) (peekable_items p)
  peekable-backs p = backs-of p.inner p.peeked p.peeked_back

  abbrev pub Peeks : (List A → Option A) → Option A × Peekable I A → List A → Type 0
  Peeks f (o, p) xs = (o ≡ f xs) × (peekable_items p ≡ xs)

  peek_unpeeked :
      (o : Option A × I) (b : Option A) (xs : List A)
      → Front items o xs
      → Peeks first
          (or d o.0 b, record { inner = o.1; peeked = o.0; peeked_back = b })
          (xs ++ opt b)
  peek_unpeeked (some x, i) b xs h = rw h (refl, refl)
  peek_unpeeked (none, i) none xs (e, e') = rw (e, e') (refl, refl)
  peek_unpeeked (none, i) (some b) xs (e, e') = rw (e, e') (refl, refl)

  peek_back_unpeeked :
      (o : Option A × I) (a : Option A) (xs : List A)
      → Back items o xs
      → Peeks last
          (or d o.0 a, record { inner = o.1; peeked = a; peeked_back = o.0 })
          (opt a ++ (xs ++ []))
  peek_back_unpeeked (some x, i) none xs h = rw (h, append-nil) (sym (last-snoc (items i) x), refl)
  peek_back_unpeeked (some x, i) (some a) xs h =
      rw (h, append-nil) (sym (last-snoc (a ∷ items i) x), refl)
  peek_back_unpeeked (none, i) none xs (e, e') = rw (e, e') (refl, refl)
  peek_back_unpeeked (none, i) (some a) xs (e, e') = rw (e, e') (refl, refl)

  peek-of :
      (i : I) (a b : Option A)
      → Peeks first
          (peek d (record { inner = i; peeked = a; peeked_back = b }))
          (peekable_items (record { inner = i; peeked = a; peeked_back = b }))
  unfolding peek
  peek-of i none b = peek_unpeeked (d.next i) b (items i) (q.fronts i)
  peek-of i (some a) b = (refl, refl)

  peek_back-of :
      (i : I) (a b : Option A)
      → Peeks last
          (peek_back d (record { inner = i; peeked = a; peeked_back = b }))
          (peekable_items (record { inner = i; peeked = a; peeked_back = b }))
  unfolding peek_back
  peek_back-of i a none = peek_back_unpeeked (d.next_back i) a (items i) (q.backs i)
  peek_back-of i none (some b) = (sym (last-snoc (items i) b), refl)
  peek_back-of i (some a) (some b) = (sym (last-snoc (a ∷ items i) b), refl)

  -- Peeking shows the first item to come, or the last one, and takes nothing.
  pub peek-first : (p : Peekable I A) → Peeks first (peek d p) (peekable_items p)
  peek-first p = peek-of p.inner p.peeked p.peeked_back

  pub peek_back-last : (p : Peekable I A) → Peeks last (peek_back d p) (peekable_items p)
  peek_back-last p = peek_back-of p.inner p.peeked p.peeked_back

  -- Over a fused double-ended iterator, `Peekable` takes its items in order from both ends,
  -- whatever was peeked at either: those peeked in front, then those of the inner iterator, then
  -- those peeked at the back; and it ends only where none is left.
  pub peekable-ends :
      (p : Peekable I A)
      → Front peekable_items (next d p) (peekable_items p)
        × Back peekable_items (next_back d p) (peekable_items p)
  peekable-ends p = (peekable-fronts p, peekable-backs p)

  -- Over a fused double-ended iterator, peeking in front shows the first item that is left,
  -- peeking at the back the last one, and neither takes an item, whatever was peeked before.
  pub peek-ends :
      (p : Peekable I A)
      → Peeks first (peek d p) (peekable_items p) × Peeks last (peek_back d p) (peekable_items p)
  peek-ends p = (peek-first p, peek_back-last p)
