-- ===== src/Prelude/Overlay.antt =====
-- Bytes put over others: the effect of `copy_from_slice` on the front of a slice, and behind an
-- offset of it.
use Prim.Native.Nat.{ℕ, zero, suc, ◌+◌, ◌-◌, ◌≤◌, min}
use mathlib.Core.Path.{◌≡◌, refl, sym, ap, ◌∙◌}
use mathlib.Core.Logic.{inl, inr}
use mathlib.Core.List.{List, [], ◌∷◌, ◌++◌, append-nil, append_assoc}
use native.Mathlib.Omega.{arith}
use byst.Prelude.Tests.{le-or-lt}
use byst.Prelude.Lists.{
  length, take, drop, replicate, length-append, length-take, length-drop, length-replicate,
  take-append, drop-append, take-append-drop, drop_all, take_all,
}

module _ {ℓ} {A : Type ℓ} where
  abbrev pub overlay : List A → List A → List A
  overlay xs ys = xs ++ drop (length xs) ys

  abbrev pub overlay_at : ℕ → List A → List A → List A
  overlay_at n xs ys = take n ys ++ overlay xs (drop n ys)

  pub length-overlay : (xs ys : List A) → length xs ≤ length ys → length (overlay xs ys) ≡ length ys
  length-overlay xs ys h =
      omega (arith, length-append xs (drop (length xs) ys), length-drop (length xs) ys)

  pub length-overlay_at :
      (n : ℕ) (xs ys : List A) → n + length xs ≤ length ys → length (overlay_at n xs ys) ≡ length ys
  length-overlay_at n xs ys h = omega (
    arith,
    length-append (take n ys) (overlay xs (drop n ys)),
    length-overlay xs (drop n ys),
    length-take n ys,
    length-drop n ys,
  )

  -- A cut behind the front of an appended list.
  pub take-front : (k : ℕ) (xs ys : List A) → length xs ≡ k → take k (xs ++ ys) ≡ xs
  take-front k xs ys e = ap (λ m. take m (xs ++ ys)) (sym e) ∙ take-append xs ys

  pub drop-front : (k : ℕ) (xs ys : List A) → length xs ≡ k → drop k (xs ++ ys) ≡ ys
  drop-front k xs ys e = ap (λ m. drop m (xs ++ ys)) (sym e) ∙ drop-append xs ys

  -- The two parts of a list with bytes put over it behind `n`.
  pub take-overlay_at :
      (n : ℕ) (xs ys : List A) → n ≤ length ys → take n (overlay_at n xs ys) ≡ take n ys
  take-overlay_at n xs ys h =
      take-front n (take n ys) (overlay xs (drop n ys)) (omega (arith, length-take n ys))

  pub drop-overlay_at :
      (n : ℕ) (xs ys : List A)
      → n ≤ length ys
      → drop n (overlay_at n xs ys) ≡ overlay xs (drop n ys)
  drop-overlay_at n xs ys h =
      drop-front n (take n ys) (overlay xs (drop n ys)) (omega (arith, length-take n ys))

  pub drop-overlay : (n : ℕ) (xs ys : List A) → length xs ≡ n → drop n (overlay xs ys) ≡ drop n ys
  drop-overlay n xs ys e = drop-front n xs (drop (length xs) ys) e ∙ ap (λ k. drop k ys) e

  -- A list that is as long as another at most covers the front of it.
  pub all_kept :
      (n : ℕ) (a : A) (xs ys : List A)
      → length xs ≡ n
      → n ≤ length ys
      → take n (overlay xs ys) ++ replicate (n - length (overlay xs ys)) a ≡ xs
  all_kept n a xs ys e h =
      let z : n - length (overlay xs ys) ≡ 0 =
        omega (arith, length-append xs (drop (length xs) ys), length-drop (length xs) ys) in
      ap (λ k. take n (overlay xs ys) ++ replicate k a) z
      ∙ append-nil _
      ∙ take-front n xs (drop (length xs) ys) e

  -- Over a list that may be shorter: what does not fit over it is appended.
  pub overlay-extend :
      (n : ℕ) (xs ys : List A)
      → n ≡ min (length ys) (length xs)
      → overlay (take n xs) ys ++ drop n xs ≡ overlay xs ys
  overlay-extend n xs ys e = elim (le-or-lt (length xs) (length ys)) [
    | inl h ↦ ap₂' (take_all n xs (omega arith)) (drop_all n xs (omega arith)) ∙ append-nil _
    | inr h ↦
        let k : length (take n xs) ≡ length ys = omega (arith, length-take n xs) in
        ap (λ z. (take n xs ++ z) ++ drop n xs)
          (drop_all (length (take n xs)) ys (omega (arith, k)))
        ∙ ap (◌++ drop n xs) (append-nil (take n xs))
        ∙ take-append-drop n xs
        ∙ sym (append-nil xs)
        ∙ ap (xs ++◌) (sym (drop_all (length xs) ys (omega arith)))
  ]
    where
      ap₂' :
          take n xs ≡ xs
          → drop n xs ≡ []
          → overlay (take n xs) ys ++ drop n xs ≡ overlay xs ys ++ []
      ap₂' p q = λ i. overlay (p i) ys ++ q i

  -- Cut behind the bytes put down.
  pub take-overlay_at_end :
      (n k : ℕ) (xs ys : List A)
      → n ≤ length ys
      → length xs ≡ k
      → take (n + k) (overlay_at n xs ys) ≡ take n ys ++ xs
  take-overlay_at_end n k xs ys h e =
      ap (take (n + k)) (sym (append_assoc (take n ys) xs (drop (length xs) (drop n ys))))
      ∙ take-front (n + k) (take n ys ++ xs) (drop (length xs) (drop n ys))
          (omega (arith, length-append (take n ys) xs, length-take n ys))

  pub drop-overlay_at_end :
      (n k : ℕ) (xs ys : List A)
      → n ≤ length ys
      → length xs ≡ k
      → drop (n + k) (overlay_at n xs ys) ≡ drop k (drop n ys)
  drop-overlay_at_end n k xs ys h e =
      ap (drop (n + k)) (sym (append_assoc (take n ys) xs (drop (length xs) (drop n ys))))
      ∙ drop-front (n + k) (take n ys ++ xs) (drop (length xs) (drop n ys))
          (omega (arith, length-append (take n ys) xs, length-take n ys))
      ∙ ap (λ j. drop j (drop n ys)) e

  -- A list padded up to the length that is cut off.
  pub take-pad :
      (n : ℕ) (a : A) (xs : List A)
      → take n (xs ++ replicate (n - length xs) a) ≡ take n xs ++ replicate (n - length xs) a
  take-pad zero a [] = refl
  take-pad zero a (x ∷ xs) = ap (λ k. replicate k a) {x = 0} (omega arith)
  take-pad (suc n) a [] =
      take_all (suc n) (replicate (suc n - 0) a) (omega (arith, length-replicate (suc n - 0) a))
  take-pad (suc n) a (x ∷ xs) = ap (x ∷◌) (
      ap (λ k. take n (xs ++ replicate k a)) {x = suc n - suc (length xs)} {y = n - length xs}
        (omega arith)
      ∙ take-pad n a xs
      ∙ ap (λ k. take n xs ++ replicate k a) {x = n - length xs} {y = suc n - suc (length xs)}
          (omega arith))

  pub drop-pad :
      (n : ℕ) (a : A) (xs : List A) → drop n (xs ++ replicate (n - length xs) a) ≡ drop n xs
  drop-pad zero a xs =
      ap (λ k. xs ++ replicate k a) {x = 0 - length xs} {y = 0} (omega arith) ∙ append-nil xs
  drop-pad (suc n) a [] =
      drop_all (suc n) (replicate (suc n - 0) a) (omega (arith, length-replicate (suc n - 0) a))
  drop-pad (suc n) a (x ∷ xs) =
      ap (λ k. drop n (xs ++ replicate k a)) {x = suc n - suc (length xs)} {y = n - length xs}
        (omega arith)
      ∙ drop-pad n a xs
