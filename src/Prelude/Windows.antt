-- ===== src/Prelude/Windows.antt =====
-- A window of a list, the elements from `s` to `e`, when bytes are put over the list inside or
-- outside of it.
use Prim.Native.Nat.{ℕ, zero, suc, ◌+◌, ◌-◌, ◌≤◌, min}
use mathlib.Core.Path.{◌≡◌, refl, sym, ap, ◌∙◌}
use mathlib.Core.Logic.{◌⊎◌, inl, inr}
use mathlib.Core.List.{List, [], ◌∷◌}
use native.Mathlib.Omega.{arith}
use byst.Prelude.Lists.{length, take, drop, length-take, length-drop, drop-take, take-take}
use byst.Prelude.Overlay.{overlay, overlay_at}

module _ {ℓ} {A : Type ℓ} where
  abbrev pub between : ℕ → ℕ → List A → List A
  between start end xs = take (end - start) (drop start xs)

  pub length-between : (s e : ℕ) (xs : List A) → e ≤ length xs → length (between s e xs) ≡ e - s
  length-between s e xs h = omega (arith, length-take (e - s) (drop s xs), length-drop s xs)

  drop-overlay_at-inside :
      (s p : ℕ) (xs ys : List A)
      → s ≤ length ys
      → drop s (overlay_at (s + p) xs ys) ≡ overlay_at p xs (drop s ys)
  drop-overlay_at-inside zero p xs ys h = ap (λ n. overlay_at n xs ys) {x = 0 + p} (omega arith)
  drop-overlay_at-inside (suc s) p xs [] h = absurd (omega arith)
  drop-overlay_at-inside (suc s) p xs (y ∷ ys) h =
      ap (λ n. drop (suc s) (overlay_at n xs (y ∷ ys))) {x = suc s + p} {y = suc (s + p)}
        (omega arith)
      ∙ drop-overlay_at-inside s p xs ys (omega arith)

  take-overlay :
      (k : ℕ) (xs ys : List A)
      → length xs ≤ k
      → length xs ≤ length ys
      → take k (overlay xs ys) ≡ overlay xs (take k ys)
  take-overlay k [] ys h l = refl
  take-overlay zero (x ∷ xs) ys h l = absurd (omega arith)
  take-overlay (suc k) (x ∷ xs) [] h l = absurd (omega arith)
  take-overlay (suc k) (x ∷ xs) (y ∷ ys) h l =
      ap (x ∷◌) (take-overlay k xs ys (omega arith) (omega arith))

  take-overlay_at-inside :
      (k p : ℕ) (xs ys : List A)
      → p + length xs ≤ k
      → p + length xs ≤ length ys
      → take k (overlay_at p xs ys) ≡ overlay_at p xs (take k ys)
  take-overlay_at-inside k zero xs ys h l = take-overlay k xs ys (omega arith) (omega arith)
  take-overlay_at-inside zero (suc p) xs ys h l = absurd (omega arith)
  take-overlay_at-inside (suc k) (suc p) xs [] h l = absurd (omega arith)
  take-overlay_at-inside (suc k) (suc p) xs (y ∷ ys) h l =
      ap (y ∷◌) (take-overlay_at-inside k p xs ys (omega arith) (omega arith))

  -- Bytes put inside the window are put over the window.
  pub between-inside :
      (s e p : ℕ) (xs ys : List A)
      → s + p + length xs ≤ e
      → e ≤ length ys
      → between s e (overlay_at (s + p) xs ys) ≡ overlay_at p xs (between s e ys)
  between-inside s e p xs ys h l =
      ap (take (e - s)) (drop-overlay_at-inside s p xs ys (omega arith))
      ∙ take-overlay_at-inside (e - s) p xs (drop s ys) (omega arith)
          (omega (arith, length-drop s ys))

  take-overlay_at-lower :
      (k n : ℕ) (xs ys : List A) → k ≤ n → n ≤ length ys → take k (overlay_at n xs ys) ≡ take k ys
  take-overlay_at-lower zero n xs ys h l = refl
  take-overlay_at-lower (suc k) zero xs ys h l = absurd (omega arith)
  take-overlay_at-lower (suc k) (suc n) xs [] h l = absurd (omega arith)
  take-overlay_at-lower (suc k) (suc n) xs (y ∷ ys) h l =
      ap (y ∷◌) (take-overlay_at-lower k n xs ys (omega arith) (omega arith))

  drop-overlay-upper :
      (k : ℕ) (xs ys : List A) → length xs ≤ k → k ≤ length ys → drop k (overlay xs ys) ≡ drop k ys
  drop-overlay-upper k [] ys h l = refl
  drop-overlay-upper zero (x ∷ xs) ys h l = absurd (omega arith)
  drop-overlay-upper (suc k) (x ∷ xs) [] h l = absurd (omega arith)
  drop-overlay-upper (suc k) (x ∷ xs) (y ∷ ys) h l =
      drop-overlay-upper k xs ys (omega arith) (omega arith)

  drop-overlay_at-upper :
      (k n : ℕ) (xs ys : List A)
      → n + length xs ≤ k
      → k ≤ length ys
      → drop k (overlay_at n xs ys) ≡ drop k ys
  drop-overlay_at-upper k zero xs ys h l = drop-overlay-upper k xs ys (omega arith) l
  drop-overlay_at-upper zero (suc n) xs ys h l = absurd (omega arith)
  drop-overlay_at-upper (suc k) (suc n) xs [] h l = absurd (omega arith)
  drop-overlay_at-upper (suc k) (suc n) xs (y ∷ ys) h l =
      drop-overlay_at-upper k n xs ys (omega arith) (omega arith)

  between-take : (s e b : ℕ) (xs : List A) → e ≤ b → between s e (take b xs) ≡ between s e xs
  between-take s e b xs h =
      ap (take (e - s)) (drop-take s b xs)
      ∙ take-take (e - s) (b - s) (drop s xs)
      ∙ ap (λ n. take n (drop s xs)) {x = min (e - s) (b - s)} (omega arith)

  -- Bytes put outside the window leave it as it is.
  pub between-outside :
      (s e n : ℕ) (xs ys : List A)
      → s ≤ e
      → e ≤ length ys
      → n + length xs ≤ length ys
      → (e ≤ n) ⊎ (n + length xs ≤ s)
      → between s e (overlay_at n xs ys) ≡ between s e ys
  between-outside s e n xs ys o l k (inl h) =
      sym (between-take s e n (overlay_at n xs ys) h)
      ∙ ap (between s e) (take-overlay_at-lower n n xs ys (omega arith) (omega arith))
      ∙ between-take s e n ys h
  between-outside s e n xs ys o l k (inr h) =
      ap (take (e - s)) (drop-overlay_at-upper s n xs ys h (omega arith))
