-- ===== src/Buf/Fill.antt =====
-- Memory of which a front is initialised, `[MaybeUninit<u8>]`, and what filling a part of it does
-- to the bytes of that front.
use byst.Prelude.{
  ℕ, zero, suc, ◌+◌, ◌-◌, ◌≤◌, max, ◌≡◌, refl, sym, ap, ap₂, ◌∙◌, subst, inl, inr, Option, none,
  some, List, [], ◌∷◌, ◌++◌, map, append-nil, arith, le-or-lt, length, take, drop, replicate,
  length-append, take-append-drop, length-take, length-drop, drop_nil, overlay, overlay_at,
  take-front,
}

-- `MaybeUninit::slice_assume_init_ref`. A byte that is not initialised reads as 0, where
-- reading it in the code is undefined behaviour.
abbrev pub assume_init : List (Option ℕ) → List ℕ
assume_init [] = []
assume_init (none ∷ xs) = 0 ∷ assume_init xs
assume_init (some x ∷ xs) = x ∷ assume_init xs

-- every byte is initialised
abbrev pub IsInit : List (Option ℕ) → Type 0
IsInit [] = Unit
IsInit (none ∷ xs) = ⊥
IsInit (some x ∷ xs) = IsInit xs

pub map-assume_init : (xs : List (Option ℕ)) → IsInit xs → map some (assume_init xs) ≡ xs
map-assume_init [] h = refl
map-assume_init (none ∷ xs) h = absurd h
map-assume_init (some x ∷ xs) h = ap (some x ∷◌) (map-assume_init xs h)

pub assume_init-map : (xs : List ℕ) → assume_init (map some xs) ≡ xs
assume_init-map [] = refl
assume_init-map (x ∷ xs) = ap (x ∷◌) (assume_init-map xs)

pub map-IsInit : (xs : List ℕ) → IsInit (map some xs)
map-IsInit [] = tt
map-IsInit (x ∷ xs) = map-IsInit xs

pub length-map : (xs : List ℕ) → length (map some xs) ≡ length xs
length-map [] = refl
length-map (x ∷ xs) = ap suc (length-map xs)

pub length-assume_init : (xs : List (Option ℕ)) → length (assume_init xs) ≡ length xs
length-assume_init [] = refl
length-assume_init (none ∷ xs) = ap suc (length-assume_init xs)
length-assume_init (some x ∷ xs) = ap suc (length-assume_init xs)

pub map-append : (xs ys : List ℕ) → map some (xs ++ ys) ≡ map some xs ++ map some ys
map-append [] ys = refl
map-append (x ∷ xs) ys = ap (some x ∷◌) (map-append xs ys)

pub take-map : (n : ℕ) (xs : List ℕ) → take n (map some xs) ≡ map some (take n xs)
take-map zero xs = refl
take-map (suc n) [] = refl
take-map (suc n) (x ∷ xs) = ap (some x ∷◌) (take-map n xs)

pub drop-map : (n : ℕ) (xs : List ℕ) → drop n (map some xs) ≡ map some (drop n xs)
drop-map zero xs = refl
drop-map (suc n) [] = refl
drop-map (suc n) (x ∷ xs) = drop-map n xs

-- Filling behind `pos` with bytes that stay in the initialised front: the front is those bytes put
-- over it, and what lies behind the front is kept.
fill-inside :
    (pos : ℕ) (xs a : List ℕ) (u : List (Option ℕ))
    → pos + length xs ≤ length a
    → overlay_at pos (map some xs) (map some a ++ u) ≡ map some (overlay_at pos xs a) ++ u
fill-inside zero [] a u h = refl
fill-inside zero (x ∷ xs) [] u h = absurd (omega arith)
fill-inside zero (x ∷ xs) (y ∷ a) u h = ap (some x ∷◌) (fill-inside zero xs a u (omega arith))
fill-inside (suc pos) xs [] u h = absurd (omega arith)
fill-inside (suc pos) xs (y ∷ a) u h = ap (some y ∷◌) (fill-inside pos xs a u (omega arith))

-- Filling from within the front over its end.
fill-over :
    (pos : ℕ) (xs a : List ℕ) (u : List (Option ℕ))
    → pos ≤ length a
    → length a ≤ pos + length xs
    → overlay_at pos (map some xs) (map some a ++ u)
      ≡ map some (overlay_at pos xs a) ++ drop (pos + length xs - length a) u
fill-over zero xs [] u h k =
    ap (λ n. map some xs ++ drop n u) (length-map xs)
    ∙ ap₂ (λ ys n. map some ys ++ drop n u) {u = length xs} {v = 0 + length xs - 0}
        (sym (ap (xs ++◌) (drop_nil (length xs)) ∙ append-nil xs)) (omega arith)
fill-over zero [] (y ∷ a) u h k = absurd (omega arith)
fill-over zero (x ∷ xs) (y ∷ a) u h k = ap (some x ∷◌) (
    fill-over zero xs a u (omega arith) (omega arith)
    ∙ ap (λ n. map some (overlay xs a) ++ drop n u) {x = 0 + length xs - length a}
        {y = 0 + suc (length xs) - suc (length a)} (omega arith))
fill-over (suc pos) xs [] u h k = absurd (omega arith)
fill-over (suc pos) xs (y ∷ a) u h k = ap (some y ∷◌) (
    fill-over pos xs a u (omega arith) (omega arith)
    ∙ ap (λ n. map some (overlay_at pos xs a) ++ drop n u) {x = pos + length xs - length a}
        {y = suc pos + length xs - suc (length a)} (omega arith))

length-overlay_at_over :
    (pos : ℕ) (xs a : List ℕ)
    → pos ≤ length a
    → length (overlay_at pos xs a) ≡ max (length a) (pos + length xs)
length-overlay_at_over pos xs a h = omega (
  arith,
  length-append (take pos a) (overlay xs (drop pos a)),
  length-append xs (drop (length xs) (drop pos a)),
  length-take pos a,
  length-drop (length xs) (drop pos a),
  length-drop pos a,
)

-- The bytes of memory with a front `a`, filled behind `pos`: the front grows to the end of what was
-- filled, if that lies beyond it, and holds the bytes put over it.
pub fill-front :
    (pos : ℕ) (xs a : List ℕ) (u : List (Option ℕ))
    → pos ≤ length a
    → take (max (length a) (pos + length xs)) (overlay_at pos (map some xs) (map some a ++ u))
      ≡ map some (overlay_at pos xs a)
fill-front pos xs a u h =
    let l : length (map some (overlay_at pos xs a)) ≡ max (length a) (pos + length xs) =
      length-map (overlay_at pos xs a) ∙ length-overlay_at_over pos xs a h in
    elim (le-or-lt (length a) (pos + length xs)) [
      | inl k ↦
          ap (take (max (length a) (pos + length xs))) (fill-over pos xs a u h k)
          ∙ take-front _ _ _ l
      | inr k ↦
          ap (take (max (length a) (pos + length xs))) (fill-inside pos xs a u (omega arith))
          ∙ take-front _ _ _ l
    ]

-- The same for memory whose first `n` bytes are initialised.
pub fill_bytes :
    (n pos : ℕ) (xs : List ℕ) (buf : List (Option ℕ))
    → IsInit (take n buf)
    → n ≤ length buf
    → pos ≤ n
    → take (max n (pos + length xs)) (overlay_at pos (map some xs) buf)
      ≡ map some (overlay_at pos xs (assume_init (take n buf)))
fill_bytes n pos xs buf i h k =
    let a = assume_init (take n buf) in
    let l : length a ≡ n = omega (arith, length-assume_init (take n buf), length-take n buf) in
    let e : map some a ++ drop n buf ≡ buf =
      ap (◌++ drop n buf) (map-assume_init (take n buf) i) ∙ take-append-drop n buf in
    subst
      (λ b.
        take (max n (pos + length xs)) (overlay_at pos (map some xs) b)
        ≡ map some (overlay_at pos xs a))
      e
      (subst
        (λ m.
          take (max m (pos + length xs)) (overlay_at pos (map some xs) (map some a ++ drop n buf))
          ≡ map some (overlay_at pos xs a))
        l (fill-front pos xs a (drop n buf) (omega (arith, l))))

pub map-replicate : (n x : ℕ) → map some (replicate n x) ≡ replicate n (some x)
map-replicate zero x = refl
map-replicate (suc n) x = ap (some x ∷◌) (map-replicate n x)

pub take-assume_init :
    (n : ℕ) (xs : List (Option ℕ)) → assume_init (take n xs) ≡ take n (assume_init xs)
take-assume_init zero xs = refl
take-assume_init (suc n) [] = refl
take-assume_init (suc n) (none ∷ xs) = ap (0 ∷◌) (take-assume_init n xs)
take-assume_init (suc n) (some x ∷ xs) = ap (x ∷◌) (take-assume_init n xs)

pub drop-assume_init :
    (n : ℕ) (xs : List (Option ℕ)) → assume_init (drop n xs) ≡ drop n (assume_init xs)
drop-assume_init zero xs = refl
drop-assume_init (suc n) [] = refl
drop-assume_init (suc n) (none ∷ xs) = drop-assume_init n xs
drop-assume_init (suc n) (some x ∷ xs) = drop-assume_init n xs

pub IsInit-take : (n m : ℕ) (xs : List (Option ℕ)) → n ≤ m → IsInit (take m xs) → IsInit (take n xs)
IsInit-take zero m xs h i = tt
IsInit-take (suc n) zero xs h i = absurd (omega arith)
IsInit-take (suc n) (suc m) [] h i = tt
IsInit-take (suc n) (suc m) (none ∷ xs) h i = absurd i
IsInit-take (suc n) (suc m) (some x ∷ xs) h i = IsInit-take n m xs (omega arith) i

pub IsInit-drop : (n : ℕ) (xs : List (Option ℕ)) → IsInit xs → IsInit (drop n xs)
IsInit-drop zero xs i = i
IsInit-drop (suc n) [] i = i
IsInit-drop (suc n) (none ∷ xs) i = absurd i
IsInit-drop (suc n) (some x ∷ xs) i = IsInit-drop n xs i
