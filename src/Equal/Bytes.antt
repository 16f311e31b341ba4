-- ===== src/Equal/Bytes.antt =====
-- `buf_eq` of byst/src/util.rs, beside equality of the bytes.
use byst.Prelude.{
  ℕ, zero, suc, ◌≤◌, ◌<◌, min, ◌≡◌, refl, sym, ap, ap₂, ◌∙◌, subst, ◌↔◌, inl, inr, Bool, true,
  false, ◌&&◌, Option, none, some, List, [], ◌∷◌, arith, ◌==◌, eq→==, ==→eq, Bool-cases, length,
  take, drop, length-drop, take-take, eq-nil_of_length,
}
use byst.Io.Interface.{BufReader}
use byst.Io.Laws.{Peeks, IsCursor}
use byst.Equal.{slice_eq, after_round, round, compare_chunks, buf_eq}

pub slice_eq_iff : (xs ys : List ℕ) → (slice_eq xs ys ≡ true) ↔ (xs ≡ ys)
slice_eq_iff xs ys = (to xs ys, from xs ys)
  where
    to : (xs ys : List ℕ) → slice_eq xs ys ≡ true → xs ≡ ys
    to [] [] h = refl
    to [] (y ∷ ys) h = absurd cc
    to (x ∷ xs) [] h = absurd cc
    to (x ∷ xs) (y ∷ ys) h = elim (Bool-cases (x == y)) [
      | inl e ↦ ap₂ ◌∷◌ (==→eq x y e) (to xs ys (rw e at h))
      | inr e ↦ absurd (ground arith)
    ]

    same : (xs : List ℕ) → slice_eq xs xs ≡ true
    same [] = refl
    same (x ∷ xs) = rw (eq→== x x refl) (same xs)

    from : (xs ys : List ℕ) → xs ≡ ys → slice_eq xs ys ≡ true
    from xs ys e = subst (λ zs. slice_eq xs zs ≡ true) e (same xs)

slice_eq-lengths : (xs ys : List ℕ) → (length xs == length ys) ≡ false → slice_eq xs ys ≡ false
slice_eq-lengths xs ys h = elim (Bool-cases (slice_eq xs ys)) [
  | inr e ↦ e
  | inl e ↦
      let k = eq→== (length xs) (length ys) (ap length ((slice_eq_iff xs ys).0 e)) in absurd cc
]

and_assoc : (a b c : Bool) → a && (b && c) ≡ a && b && c
and_assoc true b c = refl
and_assoc false b c = refl

-- the front of a chunk
chunk-front : (n : ℕ) (x xs : List ℕ) → x ≡ take (length x) xs → n ≤ length x → take n x ≡ take n xs
chunk-front n x xs e h =
    ap (take n) e
    ∙ take-take n (length x) xs
    ∙ ap (λ k. take k xs) {x = min n (length x)} {y = n} (omega arith)

-- Two lists are compared at the front and behind it.
slice_eq-split :
    (n : ℕ) (xs ys : List ℕ)
    → slice_eq xs ys ≡ slice_eq (take n xs) (take n ys) && slice_eq (drop n xs) (drop n ys)
slice_eq-split zero xs ys = refl
slice_eq-split (suc n) [] [] = refl
slice_eq-split (suc n) [] (y ∷ ys) = refl
slice_eq-split (suc n) (x ∷ xs) [] = refl
slice_eq-split (suc n) (x ∷ xs) (y ∷ ys) =
    ap ((x == y) &&◌) (slice_eq-split n xs ys) ∙ and_assoc (x == y) _ _

module _ {S V T U : Type 0} {l : BufReader S V} {r : BufReader T U} (a : IsCursor l)
    (b : IsCursor r) where
  abbrev left : S → List ℕ
  left s = a.contents s

  abbrev right : T → List ℕ
  right t = b.contents t

  round_lem :
      (fuel : ℕ) (s : S) (t : T)
      → ((s : S) (t : T)
          → a.valid s
          → b.valid t
          → length (left s) ≡ length (right t)
          → length (left s) < fuel
          → compare_chunks l r fuel s t ≡ some (slice_eq (left s) (right t)))
      → (p : Option (List ℕ)) (q : Option (List ℕ)) → Peeks p (left s)
      → Peeks q (right t)
      → a.valid s
      → b.valid t
      → length (left s) ≡ length (right t)
      → length (left s) < suc fuel
      → after_round (compare_chunks l r fuel) (round l r p q s t)
        ≡ some (slice_eq (left s) (right t))
  unfolding round
  round_lem fuel s t ih none none p q v w e h = rw (p, q) refl
  round_lem fuel s t ih none (some y) p (q, _, k) v w e h = absurd (omega (arith, ap length p))
  round_lem fuel s t ih (some x) none (p, _, k) q v w e h = absurd (omega (arith, ap length q))
  round_lem fuel s t ih (some x) (some y) (p, j, k) (p', j', k') v w e h =
      let n = min (length x) (length y) in
      let c = chunk-front n x (left s) j (omega arith) in
      let c' = chunk-front n y (right t) j' (omega arith) in
      let (s', f, v', g) = a.advances n s v (omega arith) in
      let (t', f', w', g') = b.advances n t w (omega arith) in
      let d = slice_eq-split n (left s) (right t) in
      elim (Bool-cases (slice_eq (take n (left s)) (take n (right t)))) [
        | inr z ↦
            rw (c, c', z)
              (ap some (sym (d ∙ ap (◌&& slice_eq (drop n (left s)) (drop n (right t))) z)))
        | inl z ↦
            rw (c, c', z, f, f')
              (ih s' t' v' w'
                  (omega (
                    arith,
                    ap length g,
                    ap length g',
                    length-drop n (left s),
                    length-drop n (right t),
                  ))
                  (omega (arith, ap length g, length-drop n (left s)))
                ∙ ap some (
                    ap₂ slice_eq g g'
                    ∙ sym (d ∙ ap (◌&& slice_eq (drop n (left s)) (drop n (right t))) z)))
      ]

  pub compare_chunks_lem :
      (fuel : ℕ) (s : S) (t : T)
      → a.valid s
      → b.valid t
      → length (left s) ≡ length (right t)
      → length (left s) < fuel
      → compare_chunks l r fuel s t ≡ some (slice_eq (left s) (right t))
  unfolding compare_chunks
  compare_chunks_lem zero s t v w e h = absurd (omega arith)
  compare_chunks_lem (suc fuel) s t v w e h =
      round_lem fuel s t (compare_chunks_lem fuel) (l.peek_chunk s) (r.peek_chunk t) (a.peeks s v)
        (b.peeks t w) v w e h

  answers :
      (fuel : ℕ) (s : S) (t : T)
      → a.valid s
      → b.valid t
      → length (left s) < fuel
      → buf_eq l r fuel (length (left s)) (length (right t)) s t
        ≡ some (slice_eq (left s) (right t))
  unfolding buf_eq
  answers fuel s t v w h = elim (Bool-cases (length (left s) == length (right t))) [
    | inr e ↦ rw e (ap some (sym (slice_eq-lengths (left s) (right t) e)))
    | inl e ↦ elim (Bool-cases (length (left s) == 0)) [
      | inl z ↦
          let k : length (left s) ≡ 0 = ==→eq _ _ z in
          let j : length (left s) ≡ length (right t) = ==→eq _ _ e in
          rw (e, z)
            (ap some (
              sym (
                ap₂ slice_eq (eq-nil_of_length (left s) k)
                  (eq-nil_of_length (right t) (omega arith)))))
      | inr z ↦ rw (e, z) (compare_chunks_lem fuel s t v w (==→eq _ _ e) h)
    ]
  ]

  -- For two readers that keep the contract of a reader's position and are valid, `buf_eq` with
  -- more fuel than the left has bytes returns an answer, which is `true` exactly if their bytes
  -- are equal, whatever their chunks are.
  pub buf_eq_lem :
      (fuel : ℕ) (s : S) (t : T)
      → a.valid s
      → b.valid t
      → length (left s) < fuel
      → (answer : Bool) × (buf_eq l r fuel (length (left s)) (length (right t)) s t ≡ some answer)
        × ((answer ≡ true) ↔ (left s ≡ right t))
  buf_eq_lem fuel s t v w h =
      (slice_eq (left s) (right t), answers fuel s t v w h, slice_eq_iff (left s) (right t))
