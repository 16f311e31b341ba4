-- ===== src/Iter/Ends/Marks.antt =====
-- Which items `IsEndIter` marks.
use byst.Prelude.{
  ◌≡◌, refl, sym, ap, ◌∙◌, Bool, true, false, not, Option, none, some, List, [], ◌∷◌, ◌++◌,
  append_assoc,
}
use byst.Iter.{DoubleEnded, Front, Back, IsDeque}
use byst.Iter.Peekable.{
  Peekable, first, last, peek, peek_back, next, next_back, peekable_items, peekable-fronts,
  peekable-backs, peek-first, peek_back-last,
}
use byst.Iter.Ends.{IsEnd, IsEndIter, is_none, mark_front, mark_back, next_marked, next_back_marked}

abbrev pub is_null : {A : Type 0} → List A → Bool
is_null [] = true
is_null (_ ∷ _) = false

none-first : {A : Type 0} → (xs : List A) → is_none (first xs) ≡ is_null xs
none-first [] = refl
none-first (_ ∷ _) = refl

none-last : {A : Type 0} → (xs : List A) → is_none (last xs) ≡ is_null xs
none-last [] = refl
none-last (_ ∷ []) = refl
none-last (_ ∷ y ∷ ys) = none-last (y ∷ ys)

null-append_taken :
    {A : Type 0} → (xs ys : List A) → true ≡ not (is_null ys) → is_null (xs ++ ys) ≡ false
null-append_taken [] [] h = h
null-append_taken [] (_ ∷ _) h = refl
null-append_taken (_ ∷ _) ys h = refl

null-append_untaken :
    {A : Type 0} → (xs ys : List A) → false ≡ not (is_null ys) → is_null (xs ++ ys) ≡ is_null xs
null-append_untaken [] [] h = refl
null-append_untaken [] (_ ∷ _) h = h
null-append_untaken (_ ∷ _) ys h = refl

null-taken_append :
    {A : Type 0} → (xs ys : List A) → true ≡ not (is_null xs) → is_null (xs ++ ys) ≡ false
null-taken_append [] ys h = cc
null-taken_append (_ ∷ _) ys h = refl

null-untaken_append :
    {A : Type 0} → (xs ys : List A) → false ≡ not (is_null xs) → is_null (xs ++ ys) ≡ is_null ys
null-untaken_append [] ys h = refl
null-untaken_append (_ ∷ _) ys h = cc

null-snoc : {A : Type 0} → (xs : List A) (x : A) → is_null (xs ++ (x ∷ [])) ≡ false
null-snoc [] x = refl
null-snoc (_ ∷ _) x = refl

not-of : (s b : Bool) → s ≡ not b → not s ≡ b
not-of s true h = ap not h
not-of s false h = ap not h

module _ {I A : Type 0} {d : DoubleEnded I A} (q : IsDeque d) where
  -- The iterator runs over `xs`, with `fs` taken in front and `bs` at the back.
  abbrev pub IsAt : List A → List A → List A → IsEndIter I A → Type 0
  IsAt xs fs bs t =
      (xs ≡ fs ++ (peekable_items q t.inner ++ bs))
      × ((t.iterated_from_start ≡ not (is_null fs)) × (t.iterated_from_end ≡ not (is_null bs)))

  abbrev pub MarksFront : List A → List A → List A → Option (IsEnd A) × IsEndIter I A → Type 0
  MarksFront xs fs bs (none, t) = (peekable_items q t.inner ≡ []) × IsAt xs fs bs t
  MarksFront xs fs bs (some m, t) =
      (m.is_start ≡ is_null fs)
      × ((m.is_end ≡ is_null (peekable_items q t.inner ++ bs)) × IsAt xs (fs ++ (m.item ∷ [])) bs t)

  abbrev pub MarksBack : List A → List A → List A → Option (IsEnd A) × IsEndIter I A → Type 0
  MarksBack xs fs bs (none, t) = (peekable_items q t.inner ≡ []) × IsAt xs fs bs t
  MarksBack xs fs bs (some m, t) =
      (m.is_end ≡ is_null bs)
      × ((m.is_start ≡ is_null (fs ++ peekable_items q t.inner)) × IsAt xs fs (m.item ∷ bs) t)

  snoc-front :
      (fs ys bs zs : List A) (x : A)
      → ys ≡ x ∷ zs
      → fs ++ (ys ++ bs) ≡ (fs ++ (x ∷ [])) ++ (zs ++ bs)
  snoc-front fs ys bs zs x h = rw (h, append_assoc fs (x ∷ []) (zs ++ bs)) refl

  snoc-back :
      (fs ys bs zs : List A) (x : A)
      → ys ≡ zs ++ (x ∷ [])
      → fs ++ (ys ++ bs) ≡ fs ++ (zs ++ (x ∷ bs))
  snoc-back fs ys bs zs x h = rw (h, append_assoc zs (x ∷ []) bs) refl

  taken-front : (fs : List A) (x : A) → true ≡ not (is_null (fs ++ (x ∷ [])))
  taken-front fs x = sym (ap not (null-snoc fs x))

  Front-of :
      (o : Option A × Peekable I A) (s e : Bool) (fs ys bs : List A)
      → Front (peekable_items q) o ys
      → s ≡ not (is_null fs)
      → e ≡ not (is_null bs)
      → MarksFront (fs ++ (ys ++ bs)) fs bs (mark_front d o s e)
  unfolding mark_front
  Front-of (none, p) s e fs ys bs (h, h') hs he =
      (h', (ap (λ zs. fs ++ (zs ++ bs)) (h ∙ sym h'), (hs, he)))
  Front-of (some x, p) s true fs ys bs h hs he = (
    not-of s (is_null fs) hs,
    (
      sym (null-append_taken (peekable_items q p) bs he),
      (snoc-front fs ys bs (peekable_items q p) x h, (taken-front fs x, he)),
    ),
  )
  Front-of (some x, p) s false fs ys bs h hs he =
      let k = peek-first q p in
      (
        not-of s (is_null fs) hs,
        (
          ap is_none k.0
              ∙ none-first (peekable_items q p)
              ∙ ap is_null (sym k.1)
              ∙ sym (null-append_untaken (peekable_items q (peek d p).1) bs he),
          (
            snoc-front fs ys bs (peekable_items q (peek d p).1) x (h ∙ ap (x ∷◌) (sym k.1)),
            (taken-front fs x, he),
          ),
        ),
      )

  Back-of :
      (o : Option A × Peekable I A) (s e : Bool) (fs ys bs : List A)
      → Back (peekable_items q) o ys
      → s ≡ not (is_null fs)
      → e ≡ not (is_null bs)
      → MarksBack (fs ++ (ys ++ bs)) fs bs (mark_back d o s e)
  unfolding mark_back
  Back-of (none, p) s e fs ys bs (h, h') hs he =
      (h', (ap (λ zs. fs ++ (zs ++ bs)) (h ∙ sym h'), (hs, he)))
  Back-of (some x, p) true e fs ys bs h hs he = (
    not-of e (is_null bs) he,
    (
      sym (null-taken_append fs (peekable_items q p) hs),
      (snoc-back fs ys bs (peekable_items q p) x h, (hs, refl)),
    ),
  )
  Back-of (some x, p) false e fs ys bs h hs he =
      let k = peek_back-last q p in
      (
        not-of e (is_null bs) he,
        (
          ap is_none k.0
              ∙ none-last (peekable_items q p)
              ∙ ap is_null (sym k.1)
              ∙ sym (null-untaken_append fs (peekable_items q (peek_back d p).1) hs),
          (
            snoc-back fs ys bs (peekable_items q (peek_back d p).1) x
                (h ∙ ap (◌++ (x ∷ [])) (sym k.1)),
            (hs, refl),
          ),
        ),
      )

  -- `next` marks an item as the start exactly when none was taken in front before it, as the end
  -- exactly when none is left and none was taken at the back, and it takes the first item.
  pub next_marked-marks :
      (xs fs bs : List A) (t : IsEndIter I A)
      → IsAt xs fs bs t
      → MarksFront xs fs bs (next_marked d t)
  unfolding next_marked
  next_marked-marks xs fs bs t (h, (hs, he)) = rw h (
      Front-of (next d t.inner) t.iterated_from_start t.iterated_from_end fs
        (peekable_items q t.inner) bs (peekable-fronts q t.inner) hs he)

  pub next_back_marked-marks :
      (xs fs bs : List A) (t : IsEndIter I A)
      → IsAt xs fs bs t
      → MarksBack xs fs bs (next_back_marked d t)
  unfolding next_back_marked
  next_back_marked-marks xs fs bs t (h, (hs, he)) = rw h (
      Back-of (next_back d t.inner) t.iterated_from_start t.iterated_from_end fs
        (peekable_items q t.inner) bs (peekable-backs q t.inner) hs he)

  -- Over a fused double-ended iterator, and with some items taken in front and some at the back,
  -- `IsEndIter` gives the next item of either end, marked as the start exactly if no item stands
  -- before it and as the end exactly if none stands after it, taken ones included; it gives none
  -- exactly where no item is left.
  pub marks-ends :
      (xs fs bs : List A) (t : IsEndIter I A)
      → IsAt xs fs bs t
      → MarksFront xs fs bs (next_marked d t) × MarksBack xs fs bs (next_back_marked d t)
  marks-ends xs fs bs t h = (next_marked-marks xs fs bs t h, next_back_marked-marks xs fs bs t h)
