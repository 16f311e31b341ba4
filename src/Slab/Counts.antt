-- ===== src/Slab/Counts.antt =====
-- The counts that the loop of `Slab::get` changes, and the list of buffers in use.
use byst.Prelude.{
  ℕ, zero, suc, ◌<◌, ◌≡◌, refl, sym, ap, ◌∙◌, ◌≢◌, inl, inr, true, false, none, some, List, [], ◌∷◌,
  ◌++◌, arith, ◌==◌, eq→==, ==→eq, Bool-cases, length, get_elem?, take, drop, length-append,
  length-take, length-drop, take-front,
}
use byst.Arc.Count.{decrement, make_unreclaimable, try_reclaim}
use byst.Slab.{Words, set, last_to_front, insert_second, swap_remove, claim, release}

pub none≢some : {x : ℕ} → none ≢ some x
none≢some h = cc

pub some-injective : {x y : ℕ} → some x ≡ some y → x ≡ y
some-injective h = cc

abbrev pub All : (ℕ → Type 0) → List ℕ → Type 0
All P [] = Unit
All P (x ∷ xs) = P x × All P xs

pub All-map : (P Q : ℕ → Type 0) → ((x : ℕ) → P x → Q x) → (xs : List ℕ) → All P xs → All Q xs
All-map P Q f [] h = tt
All-map P Q f (x ∷ xs) (p, h) = (f x p, All-map P Q f xs h)

pub All-snoc : (P : ℕ → Type 0) (x : ℕ) (xs : List ℕ) → All P xs → P x → All P (xs ++ (x ∷ []))
All-snoc P x [] h p = (p, tt)
All-snoc P x (y ∷ ys) (q, h) p = (q, All-snoc P x ys h p)

-- the buffer can be handed out: its one reference is the one beside the `Reclaim`
abbrev pub IsOwned : Words → ℕ → Type 0
IsOwned words id = words id ≡ 3

-- the buffer cannot be reclaimed
abbrev pub IsHeld : Words → ℕ → Type 0
IsHeld words id = words id ≢ 1

pub set-same : (id w : ℕ) (words : Words) → set id w words id ≡ w
unfolding set
set-same id w words = rw (eq→== id id refl) refl

-- a change of one count keeps what holds of the new count and of all others
pub set-keeps :
    (P : ℕ → Type 0) (id w : ℕ) (words : Words) (y : ℕ) → P (words y) → P w → P (set id w words y)
unfolding set
set-keeps P id w words y h k = elim (Bool-cases (y == id)) [ inl e ↦ rw e k | inr e ↦ rw e h ]

pub reclaims-one : (w : ℕ) → (try_reclaim w).0 ≡ true → w ≡ 1
unfolding try_reclaim
reclaims-one w h = ground arith

pub fails-other : (w : ℕ) → (try_reclaim w).0 ≡ false → ((try_reclaim w).1 ≡ w) × (w ≢ 1)
unfolding try_reclaim
fails-other w h = ground arith

pub three-one : ◌≢◌ {A = ℕ} 3 1
three-one h = omega (arith, h)

pub zero-one : ◌≢◌ {A = ℕ} 0 1
zero-one h = omega (arith, h)

-- A buffer that is reclaimed: its own count is 3 after that, and no other count changes.
module _ (id : ℕ) (words : Words) (e : words id ≡ 1) where
  pub claimed-keeps : (P : ℕ → Type 0) (y : ℕ) → P (words y) → P 3 → P (claim id words y)
  unfolding claim try_reclaim
  claimed-keeps P y h k = set-keeps P id (try_reclaim (words id)).1 words y h (rw e k)

  pub claimed-IsOwned : IsOwned (claim id words) id
  unfolding claim try_reclaim
  claimed-IsOwned = set-same id (try_reclaim (words id)).1 words ∙ rw e refl

  -- dropped again, its count is 0
  pub dropped-keeps :
      (P : ℕ → Type 0) (y : ℕ) → (y ≡ id → P 0) → P (words y) → P (release id (claim id words) y)
  unfolding release claim set decrement make_unreclaimable try_reclaim
  dropped-keeps P y z h = elim (Bool-cases (y == id)) [
    | inl k ↦ rw (k, eq→== id id refl, e) (z (==→eq y id k))
    | inr k ↦ rw (k) h
  ]

-- One that is not leaves every count.
pub failed-same :
    (id : ℕ) (words : Words) (y : ℕ)
    → (try_reclaim (words id)).0 ≡ false
    → claim id words y ≡ words y
unfolding claim set
failed-same id words y h = elim (Bool-cases (y == id)) [
  | inl k ↦ rw k ((fails-other (words id) h).0 ∙ ap words (sym (==→eq y id k)))
  | inr k ↦ rw k refl
]

pub length-insert_second : (x : ℕ) (xs : List ℕ) → length (insert_second x xs) ≡ suc (length xs)
length-insert_second x [] = refl
length-insert_second x (y ∷ ys) = refl

pub length-last_to_front : (xs : List ℕ) → length (last_to_front xs) ≡ length xs
unfolding last_to_front
length-last_to_front [] = refl
length-last_to_front (x ∷ xs) =
    length-insert_second x (last_to_front xs) ∙ ap suc (length-last_to_front xs)

pub get-some : (xs : List ℕ) (i x : ℕ) → get_elem? xs i ≡ some x → i < length xs
get-some [] i x h = absurd (none≢some h)
get-some (y ∷ ys) zero x h = omega arith
get-some (y ∷ ys) (suc i) x h = omega (arith, get-some ys i x h)

pub take-suc :
    (xs : List ℕ) (i x : ℕ) → get_elem? xs i ≡ some x → take (suc i) xs ≡ take i xs ++ (x ∷ [])
take-suc [] i x h = absurd (none≢some h)
take-suc (y ∷ ys) zero x h = ap (◌∷ []) (some-injective h)
take-suc (y ∷ ys) (suc i) x h = ap (y ∷◌) (take-suc ys i x h)

pub length-swap_remove :
    (i : ℕ) (xs : List ℕ) → i < length xs → suc (length (swap_remove i xs)) ≡ length xs
unfolding swap_remove
length-swap_remove i xs h = omega (
  arith,
  length-append (take i xs) (last_to_front (drop (suc i) xs)),
  length-take i xs,
  length-last_to_front (drop (suc i) xs),
  length-drop (suc i) xs,
)

pub take-swap_remove : (i : ℕ) (xs : List ℕ) → i < length xs → take i (swap_remove i xs) ≡ take i xs
unfolding swap_remove
take-swap_remove i xs h =
    take-front i (take i xs) (last_to_front (drop (suc i) xs)) (omega (arith, length-take i xs))
