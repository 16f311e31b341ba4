-- ===== src/Slab/Get.antt =====
-- `Slab::get`.
use byst.Prelude.{
  ℕ, ◌+◌, ◌≤◌, ◌<◌, ◌≡◌, refl, sym, ap, ◌∙◌, ◌≢◌, ◌⊎◌, inl, inr, true, Option, none, some, List, [],
  ◌∷◌, arith, eq→==, gt→==, le-or-lt, length, and_then,
}
use byst.Arc.Count.{new}
use byst.Slab.{Words, set, Slab, Scan, pop, taken, taken_with, popped_or_scanned, get}
use byst.Slab.Counts.{All, All-map, All-snoc, IsOwned, IsHeld, set-same, set-keeps, none≢some}
use byst.Slab.Loop.{IsScan, Scanned, scan-Scanned}

-- The buffers that are available can be handed out, and are no more than are to be.
pub record IsSlab (b : Slab) (words : Words) : Type 0 where
  pub owned : All (IsOwned words) b.available
  pub few : length b.available ≤ b.reuse_count

-- A buffer was returned that can be handed out, or the zero-sized one for the size 0; no buffer is
-- in use that could have been reclaimed instead, unless one was available.
unfoldable pub Gets : Slab → Option (Option ℕ × Slab × Words) → Type 0
Gets b none = ⊥
Gets b (some (none, c, words)) = (b.buf_size ≡ 0) × IsSlab c words
Gets b (some (some id, c, words)) =
    (0 < b.buf_size)
    × IsOwned words id
    × IsSlab c words
    × ((b.available ≢ []) ⊎ All (IsHeld words) c.in_use)

-- what `pop` takes is the last element
pub Pops : (ℕ → Type 0) → List ℕ → Option (List ℕ × ℕ) → Type 0
Pops P xs none = xs ≡ []
Pops P xs (some (ys, y)) = All P ys × P y × (length ys < length xs)

popped :
    (P : ℕ → Type 0) (x : ℕ) (xs : List ℕ)
    → P x
    → (o : Option (List ℕ × ℕ)) → Pops P xs o
    → 0 < length xs
    → Pops P (x ∷ xs) (and_then o (λ (zs, z). some (x ∷ zs, z)))
unfolding Pops
popped P x xs p none e h = absurd (omega (arith, ap length e))
popped P x xs p (some (ys, y)) (q, r, less) h = ((p, q), r, omega arith)

pop-All : (P : ℕ → Type 0) (xs : List ℕ) → All P xs → Pops P xs (pop xs)
unfolding Pops pop
pop-All P [] h = refl
pop-All P (x ∷ []) (p, h) = (tt, p, omega arith)
pop-All P (x ∷ y ∷ ys) (p, h) =
    popped P x (y ∷ ys) p (pop (y ∷ ys)) (pop-All P (y ∷ ys) h) (omega arith)

new-three : new 1 true ≡ 3
unfolding new
new-three = refl

three_held : new 1 true ≢ 1
three_held h = omega (arith, sym new-three ∙ h)

-- by what the loop has reclaimed
taken_of :
    (fresh : ℕ) (b : Slab) (s : Scan)
    → 0 < b.buf_size
    → IsScan b.reuse_count s
    → All (IsHeld s.words) s.in_use
    → (r : Option ℕ) → s.reclaimed ≡ r
    → Gets b (some (taken_with fresh b s r))
unfolding Gets taken_with
taken_of fresh b s h v k (some id) e =
    (h, v.found id e, record { owned = v.owned; few = v.few }, inr k)
taken_of fresh b s h v k none e = (
  h,
  set-same fresh (new 1 true) s.words ∙ new-three,
  record {
    owned =
        All-map (IsOwned s.words) (IsOwned (set fresh (new 1 true) s.words))
          (λ y p. set-keeps (λ w. w ≡ 3) fresh (new 1 true) s.words y p new-three) s.available
          v.owned;
    few = v.few;
  },
  inr (
      All-snoc (IsHeld (set fresh (new 1 true) s.words)) fresh s.in_use
        (All-map (IsHeld s.words) (IsHeld (set fresh (new 1 true) s.words))
          (λ y p. set-keeps (λ w. w ≢ 1) fresh (new 1 true) s.words y p three_held) s.in_use k)
        (λ q. three_held (sym (set-same fresh (new 1 true) s.words) ∙ q))),
)

taken-Gets :
    (fresh : ℕ) (b : Slab) (s : Scan)
    → 0 < b.buf_size
    → IsScan b.reuse_count s
    → All (IsHeld s.words) s.in_use
    → Gets b (some (taken fresh b s))
unfolding Gets
taken-Gets fresh b s h v k = taken_of fresh b s h v k s.reclaimed refl

scan-Gets :
    (fresh : ℕ) (b : Slab) (o : Option Scan)
    → 0 < b.buf_size
    → Scanned b.reuse_count o
    → Gets b (and_then o (λ s. some (taken fresh b s)))
unfolding Scanned
scan-Gets fresh b none h v = absurd v
scan-Gets fresh b (some s) h (v, k) = taken-Gets fresh b s h v k

-- by whether a buffer is available
pop-Gets :
    (fresh : ℕ) (b : Slab) (words : Words) (o : Option (List ℕ × ℕ))
    → 0 < b.buf_size
    → IsSlab b words
    → Pops (IsOwned words) b.available o
    → Gets b (popped_or_scanned fresh b words o)
unfolding Pops Gets popped_or_scanned
pop-Gets fresh b words none h v e = scan-Gets fresh b _ h (
    scan-Scanned (length b.in_use + 2) b.reuse_count
      (record {
        index = 0;
        reclaimed = none;
        in_use = b.in_use;
        available = b.available;
        words = words;
      })
      (record { owned = v.owned; found = λ id k. absurd (none≢some k); held = tt; few = v.few })
      (omega arith))
pop-Gets fresh b words (some (ys, y)) h v (p, q, less) = (
  h,
  q,
  record { owned = p; few = omega (arith, v.few) },
  inl (λ e. omega (arith, less, ap length e)),
)

-- On a slab whose available buffers have no reference but their own beside the `Reclaim`, and
-- are no more than are to be reused, `get` ends, keeps this, and returns the zero-sized buffer
-- exactly if the size is 0; any other buffer that it returns has no second reference, and unless
-- a buffer was available, none that is then in use can be reclaimed.
pub get_lem : (fresh : ℕ) (b : Slab) (words : Words) → IsSlab b words → Gets b (get fresh b words)
unfolding get Gets
get_lem fresh b words v = elim (le-or-lt b.buf_size 0) [
  | inl h ↦ rw (get, Gets, eq→== b.buf_size 0 (omega arith)) (omega arith, v)
  | inr h ↦
      rw (get, gt→== b.buf_size 0 h)
        (pop-Gets fresh b words (pop b.available) h v (pop-All (IsOwned words) b.available v.owned))
]
