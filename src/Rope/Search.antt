-- ===== src/Rope/Search.antt =====
-- The binary search of byst/src/buf/rope.rs, beside the order that it is given.
use byst.Prelude.{
  ℕ, zero, suc, ◌+◌, ◌-◌, ◌/◌, ◌≤◌, ◌<◌, ◌≡◌, refl, ap, ◌∙◌, ◌⊎◌, inl, inr, Option, some, List, [],
  ◌∷◌, arith, lt→ltb, le-or-lt, length, get_elem?,
}
use byst.Rope.{Ordering, less, equal, greater, search, binary_search_by}

abbrev pub rank : Ordering → ℕ
rank less = 0
rank equal = 1
rank greater = 2

-- The elements that are less come first, those that are greater last.
abbrev pub IsOrdered : {A : Type 0} → (A → Ordering) → List A → Type 0
IsOrdered {A} f xs =
    (i j : ℕ) (a b : A)
    → i ≤ j
    → get_elem? xs i ≡ some a
    → get_elem? xs j ≡ some b
    → rank (f a) ≤ rank (f b)

pub get_elem?-some :
    {A : Type 0} (i : ℕ) (xs : List A) → i < length xs → (a : A) × (get_elem? xs i ≡ some a)
get_elem?-some i [] h = absurd (omega arith)
get_elem?-some zero (x ∷ xs) h = (x, refl)
get_elem?-some (suc i) (x ∷ xs) h = get_elem?-some i xs (omega arith)

pub get_elem?-length :
    {A : Type 0} (i : ℕ) (xs : List A) (a : A) → get_elem? xs i ≡ some a → i < length xs
get_elem?-length i [] a h = absurd cc
get_elem?-length zero (x ∷ xs) a h = omega arith
get_elem?-length (suc i) (x ∷ xs) a h = omega (arith, get_elem?-length i xs a h)

Ordering-cases : (o : Ordering) → (o ≡ less) ⊎ ((o ≡ equal) ⊎ (o ≡ greater))
Ordering-cases less = inl refl
Ordering-cases equal = inr (inl refl)
Ordering-cases greater = inr (inr refl)

module _ {A : Type 0} (f : A → Ordering) (xs : List A) where
  -- an index between `left` and `right` of an element that is equal
  pub record Finds (left right : ℕ) (o : Option ℕ) : Type 0 where
    pub index : ℕ
    pub element : A
    pub finds : o ≡ some index
    pub at_index : get_elem? xs index ≡ some element
    pub is_equal : f element ≡ equal
    pub above : left ≤ index
    pub below : index < right

  widen :
      {o o' : Option ℕ} (left right left' right' : ℕ)
      → left ≤ left'
      → right' ≤ right
      → o ≡ o'
      → Finds left' right' o'
      → Finds left right o
  widen left right left' right' h k e w = record {
    index = w.index;
    element = w.element;
    finds = e ∙ w.finds;
    at_index = w.at_index;
    is_equal = w.is_equal;
    above = omega (arith, w.above);
    below = omega (arith, w.below);
  }

  module _ (ordered : IsOrdered f xs) (k : ℕ) (a : A) (at_k : get_elem? xs k ≡ some a)
      (e : f a ≡ equal) where
    abbrev branch : ℕ → ℕ → ℕ → ℕ → Ordering → Option ℕ
    branch n left right mid o = elim o [
      | less ↦ search n f xs (mid + 1) right
      | equal ↦ some mid
      | greater ↦ search n f xs left mid
    ]

    after_less : (i : ℕ) (x : A) → get_elem? xs i ≡ some x → f x ≡ less → i < k
    after_less i x g c = elim (le-or-lt k i) [
      | inl h ↦ absurd (omega (arith, ordered k i a x h at_k g, ap rank e, ap rank c))
      | inr h ↦ h
    ]

    before_greater : (i : ℕ) (x : A) → get_elem? xs i ≡ some x → f x ≡ greater → k < i
    before_greater i x g c = elim (le-or-lt i k) [
      | inl h ↦ absurd (omega (arith, ordered i k x a h g at_k, ap rank e, ap rank c))
      | inr h ↦ h
    ]

    search_step :
        (n left right : ℕ) (x : A)
        → left < right
        → get_elem? xs (left + (right - left) / 2) ≡ some x
        → search (suc n) f xs left right ≡ branch n left right (left + (right - left) / 2) (f x)
    unfolding search
    search_step n left right x h g = rw (lt→ltb left right h, g) refl

    search_lem :
        (n left right : ℕ)
        → left ≤ k
        → k < right
        → right ≤ length xs
        → right - left ≤ n
        → Finds left right (search n f xs left right)
    search_lem zero left right h l m o = absurd (omega arith)
    search_lem (suc n) left right h l m o =
        let mid = left + (right - left) / 2 in
        let (x, g) = get_elem?-some mid xs (omega arith) in
        let s = search_step n left right x (omega arith) g in
        elim (Ordering-cases (f x)) [
          | inl c ↦
              let q : mid < k = after_less mid x g c in
              widen left right (mid + 1) right (omega arith) (omega arith)
                (s ∙ ap (branch n left right mid) c)
                (search_lem n (mid + 1) right (omega arith) l m (omega arith))
          | inr (inl c) ↦ record {
            index = mid;
            element = x;
            finds = s ∙ ap (branch n left right mid) c;
            at_index = g;
            is_equal = c;
            above = omega arith;
            below = omega arith;
          }
          | inr (inr c) ↦
              let q : k < mid = before_greater mid x g c in
              widen left right left mid (omega arith) (omega arith)
                (s ∙ ap (branch n left right mid) c)
                (search_lem n left mid h q (omega arith) (omega arith))
        ]

    pub binary_search_by_lem : Finds 0 (length xs) (binary_search_by f xs)
    unfolding binary_search_by
    binary_search_by_lem =
        search_lem (length xs) 0 (length xs) (omega arith) (get_elem?-length k xs a at_k)
          (omega arith) (omega arith)
