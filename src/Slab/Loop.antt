-- ===== src/Slab/Loop.antt =====
-- The loop of `Slab::get` of byst/src/buf/slab.rs, and the counts that it leaves.
use byst.Prelude.{
  ℕ, zero, suc, ◌+◌, ◌-◌, ◌≤◌, ◌<◌, ◌≡◌, refl, sym, ap, ◌∙◌, subst, ◌≢◌, ◌⊎◌, inl, inr, true, false,
  Option, none, some, List, [], ◌∷◌, ◌++◌, arith, ltb, ltb→lt, Bool-cases, Option-cases, length,
  get_elem?, take, length-append, take_all,
}
use byst.Arc.Count.{try_reclaim}
use byst.Slab.{Words, swap_remove, Scan, claim, release, keep, visit, scan}
use byst.Slab.Counts.{
  none≢some, some-injective, All, All-map, All-snoc, IsOwned, IsHeld, reclaims-one, fails-other,
  three-one, zero-one, claimed-keeps, claimed-IsOwned, dropped-keeps, failed-same, get-some,
  take-suc, length-swap_remove, take-swap_remove,
}

-- What the loop keeps: what is available or reclaimed can be handed out, no buffer before the index can
-- be reclaimed, and no more buffers are available than are to be.
pub record IsScan (reuse_count : ℕ) (s : Scan) : Type 0 where
  pub owned : All (IsOwned s.words) s.available
  pub found : (id : ℕ) → s.reclaimed ≡ some id → IsOwned s.words id
  pub held : All (IsHeld s.words) (take s.index s.in_use)
  pub few : length s.available ≤ reuse_count

abbrev unfound : Option ℕ → ℕ
unfound none = 1
unfound (some _) = 0

-- how many rounds are left at most
abbrev pub rounds : Scan → ℕ
rounds s = length s.in_use - s.index + unfound s.reclaimed

abbrev Visited : ℕ → Scan → Scan → Type 0
Visited n s t = IsScan n t × (rounds t < rounds s)

abbrev at : ℕ → Option ℕ → List ℕ → List ℕ → Words → Scan
at i r xs av words = record { index = i; reclaimed = r; in_use = xs; available = av; words = words }

module _ (n i id : ℕ) (xs av : List ℕ) (words : Words) (g : get_elem? xs i ≡ some id) where
  in_bounds : i < length xs
  in_bounds = get-some xs i id g

  visit-failed :
      (r : Option ℕ)
      → (try_reclaim (words id)).0 ≡ false
      → IsScan n (at i r xs av words)
      → Visited n (at i r xs av words) (at (suc i) r xs av (claim id words))
  visit-failed r h s =
      let same : (y : ℕ) → claim id words y ≡ words y = λ y. failed-same id words y h in
      (
        record {
          owned = All-map (IsOwned words) (IsOwned (claim id words)) (λ y p. same y ∙ p) av s.owned;
          found = λ y e. same y ∙ s.found y e;
          held = subst (All (IsHeld (claim id words))) (sym (take-suc xs i id g)) (
              All-snoc (IsHeld (claim id words)) id (take i xs)
                (All-map (IsHeld words) (IsHeld (claim id words)) (λ y p q. p (sym (same y) ∙ q))
                  (take i xs) s.held)
                (λ q. (fails-other (words id) h).1 (sym (same id) ∙ q)));
          few = s.few;
        },
        omega (arith, in_bounds),
      )

  visit-found :
      words id ≡ 1
      → IsScan n (at i none xs av words)
      → Visited n (at i none xs av words) (at i (some id) xs av (claim id words))
  visit-found e s = (
    record {
      owned =
          All-map (IsOwned words) (IsOwned (claim id words))
            (λ y p. claimed-keeps id words e (λ w. w ≡ 3) y p refl) av s.owned;
      found =
          λ y k. subst (IsOwned (claim id words)) (some-injective k) (claimed-IsOwned id words e);
      held =
          All-map (IsHeld words) (IsHeld (claim id words))
            (λ y p. claimed-keeps id words e (λ w. w ≢ 1) y p three-one) (take i xs) s.held;
      few = s.few;
    },
    omega (arith, in_bounds),
  )

  -- another one that can be reclaimed, kept or dropped
  visit-kept :
      (r : ℕ)
      → words id ≡ 1
      → length av < n
      → IsScan n (at i (some r) xs av words)
      → Visited n
          (at i (some r) xs av words)
          (at i (some r) (swap_remove i xs) (av ++ (id ∷ [])) (claim id words))
  visit-kept r e h s = (
    record {
      owned =
          All-snoc (IsOwned (claim id words)) id av
            (All-map (IsOwned words) (IsOwned (claim id words))
              (λ y p. claimed-keeps id words e (λ w. w ≡ 3) y p refl) av s.owned)
            (claimed-IsOwned id words e);
      found = λ y k. claimed-keeps id words e (λ w. w ≡ 3) y (s.found y k) refl;
      held = subst (All (IsHeld (claim id words))) (sym (take-swap_remove i xs in_bounds)) (
          All-map (IsHeld words) (IsHeld (claim id words))
            (λ y p. claimed-keeps id words e (λ w. w ≢ 1) y p three-one) (take i xs) s.held);
      few = omega (arith, length-append av (id ∷ []));
    },
    omega (arith, length-swap_remove i xs in_bounds, in_bounds),
  )

  visit-dropped :
      (r : ℕ)
      → words id ≡ 1
      → IsScan n (at i (some r) xs av words)
      → Visited n
          (at i (some r) xs av words)
          (at i (some r) (swap_remove i xs) av (release id (claim id words)))
  visit-dropped r e s =
      let owned : (y : ℕ) → words y ≡ 3 → release id (claim id words) y ≡ 3 = λ y p.
        dropped-keeps id words e (λ w. w ≡ 3) y (λ k. absurd (omega (arith, p, e, ap words k))) p in
      (
        record {
          owned = All-map (IsOwned words) (IsOwned (release id (claim id words))) owned av s.owned;
          found = λ y k. owned y (s.found y k);
          held =
              subst (All (IsHeld (release id (claim id words))))
                (sym (take-swap_remove i xs in_bounds))
                (All-map (IsHeld words) (IsHeld (release id (claim id words)))
                  (λ y p. dropped-keeps id words e (λ w. w ≢ 1) y (λ k. zero-one) p) (take i xs)
                  s.held);
          few = s.few;
        },
        omega (arith, length-swap_remove i xs in_bounds, in_bounds),
      )

  visited :
      (r : Option ℕ)
      → IsScan n (at i r xs av words)
      → ((try_reclaim (words id)).0 ≡ true) ⊎ ((try_reclaim (words id)).0 ≡ false)
      → (ltb (length av) n ≡ true) ⊎ (ltb (length av) n ≡ false)
      → Visited n (at i r xs av words) (visit n id (at i r xs av words))
  unfolding visit keep
  visited r s (inr h) k = rw h (visit-failed r h s)
  visited none s (inl h) k = rw h (visit-found (reclaims-one (words id) h) s)
  visited (some r) s (inl h) (inl k) =
      rw (h, k) (visit-kept r (reclaims-one (words id) h) (ltb→lt (length av) n k) s)
  visited (some r) s (inl h) (inr k) = rw (h, k) (visit-dropped r (reclaims-one (words id) h) s)

  visit-Visited :
      (r : Option ℕ)
      → IsScan n (at i r xs av words)
      → Visited n (at i r xs av words) (visit n id (at i r xs av words))
  visit-Visited r s =
      visited r s (Bool-cases (try_reclaim (words id)).0) (Bool-cases (ltb (length av) n))

-- The loop ended, where no buffer is left to visit, with what it keeps.
unfoldable pub Scanned : ℕ → Option Scan → Type 0
Scanned n none = ⊥
Scanned n (some s) = IsScan n s × All (IsHeld s.words) s.in_use

get-none : (xs : List ℕ) (i : ℕ) → get_elem? xs i ≡ none → length xs ≤ i
get-none [] i h = omega arith
get-none (x ∷ xs) zero h = absurd (none≢some (sym h))
get-none (x ∷ xs) (suc i) h = omega (arith, get-none xs i h)

scanned : (n : ℕ) (s : Scan) → IsScan n s → length s.in_use ≤ s.index → Scanned n (some s)
unfolding Scanned
scanned n s v h = (v, subst (All (IsHeld s.words)) (take_all s.index s.in_use h) v.held)

pub scan-Scanned :
    (fuel n : ℕ) (s : Scan) → IsScan n s → rounds s < fuel → Scanned n (scan fuel n s)
unfolding scan
scan-Scanned zero n s v h = absurd (omega arith)
scan-Scanned (suc fuel) n s v h = elim (Option-cases (get_elem? s.in_use s.index)) [
  | inl g ↦ rw (scan, g) (scanned n s v (get-none s.in_use s.index g))
  | inr (id, g) ↦
      let (w, less) = visit-Visited n s.index id s.in_use s.available s.words g s.reclaimed v in
      rw (scan, g) (scan-Scanned fuel n (visit n id s) w (omega (arith, less)))
]
