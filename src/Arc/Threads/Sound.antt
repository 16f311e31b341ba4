-- ===== src/Arc/Threads/Sound.antt =====
-- The invariant of the handles of a buffer of byst/src/buf/arc_buf.rs, under their steps.
use byst.Prelude.{
  ℕ, zero, suc, ◌+◌, ◌-◌, ◌*◌, ◌≤◌, ◌<◌, ◌≡◌, refl, sym, ap, ◌∙◌, Bool, true, false, not, ◌&&◌,
  some, arith, ◌==◌, usize_mod,
}
use byst.Arc.Count.{new, increment, decrement, make_unreclaimable, try_reclaim, bit}
use byst.Arc.Threads.{
  Threads, allocated, cloned, dropped, unclaimed, reclaimed, deallocated, Step, clones, drops,
  unclaims, reclaims, deallocates, Reachable, start, after,
}

-- one deallocation is owed or done once no handle is left
abbrev pub releases : ℕ → Bool → ℕ
releases zero true = 0
releases zero false = 1
releases (suc _) _ = 0

pub record IsSound (t : Threads) : Type 0 where
  pub counts : t.word ≡ t.refs * 2 + bit t.reclaim
  pub fits : t.refs * 2 + 1 < usize_mod
  pub once : t.due + t.freed ≡ releases t.refs t.reclaim

increment-counts :
    (n b : ℕ) → suc n * 2 + 1 < usize_mod → b ≤ 1 → increment (n * 2 + b) ≡ suc n * 2 + b
unfolding increment
increment-counts n b h k = omega arith

decrement-counts :
    (n b : ℕ) → suc n * 2 + 1 < usize_mod → b ≤ 1 → (decrement (suc n * 2 + b)).1 ≡ n * 2 + b
unfolding decrement
decrement-counts n b h k = omega arith

decrement-must :
    (n : ℕ) (b : Bool)
    → suc n * 2 + 1 < usize_mod
    → (decrement (suc n * 2 + bit b)).0 ≡ some (releases n b == 1)
unfolding decrement
decrement-must zero true h = refl
decrement-must zero false h = refl
decrement-must (suc n) b h = ground arith

bit-le : (b : Bool) → bit b ≤ 1
bit-le true = omega arith
bit-le false = omega arith

some-injective : {A : Type 0} → {a b : A} → some a ≡ some b → a ≡ b
some-injective h = cc

-- a deallocation that is owed
released-bit : (n : ℕ) (b : Bool) → bit (releases n b == 1) ≡ releases n b
released-bit zero true = refl
released-bit zero false = refl
released-bit (suc _) _ = refl

releases-reclaim : (n : ℕ) → releases n true ≡ 0
releases-reclaim zero = refl
releases-reclaim (suc _) = refl

due_once : (d f m r : ℕ) → d + f ≡ 0 → m ≡ r → d + m + f ≡ r
due_once d f m r h k = omega arith

-- The handles with a `Reclaim`, by their number.
reclaimable : ℕ → ℕ → ℕ → Threads
reclaimable n d f = record { refs = n; reclaim = true; word = n * 2 + 1; due = d; freed = f }

try_reclaim-held : (n : ℕ) → try_reclaim (suc n * 2 + 1) ≡ (false, suc n * 2 + 1)
unfolding try_reclaim
try_reclaim-held n = ground arith

make_unreclaimable-held : (n : ℕ) → make_unreclaimable (n * 2 + 1) ≡ (releases n false == 1, n * 2)
unfolding make_unreclaimable
make_unreclaimable-held zero = refl
make_unreclaimable-held (suc n) = ground arith

reclaimed-reclaimable :
    (n d f : ℕ) → IsSound (reclaimable n d f) → IsSound (reclaimed (reclaimable n d f))
unfolding reclaimed reclaimable try_reclaim
reclaimed-reclaimable zero d f s = record { counts = refl; fits = omega arith; once = s.once }
reclaimed-reclaimable (suc n) d f s =
    rw (try_reclaim-held n) (record { counts = refl; fits = s.fits; once = s.once })

unclaimed-reclaimable :
    (n d f : ℕ) → IsSound (reclaimable n d f) → IsSound (unclaimed (reclaimable n d f))
unfolding unclaimed reclaimable
unclaimed-reclaimable n d f s = record {
  counts = ap (λ v. v.1) (make_unreclaimable-held n) ∙ omega arith;
  fits = s.fits;
  once =
      due_once d f (bit (make_unreclaimable (n * 2 + 1)).0) (releases n false)
        (s.once ∙ releases-reclaim n)
        (ap (λ v. bit v.0) (make_unreclaimable-held n) ∙ released-bit n false);
}

module _ (b : Bool) (w d f : ℕ) where
  abbrev at_count : ℕ → Threads
  at_count n = record { refs = n; reclaim = b; word = w; due = d; freed = f }

  cloned-IsSound :
      (n : ℕ)
      → 0 < n
      → suc n * 2 + 1 < usize_mod
      → IsSound (at_count n)
      → IsSound (cloned (at_count n))
  unfolding cloned
  cloned-IsSound zero h k s = elim h [ ]
  cloned-IsSound (suc n) h k s = record {
    counts = ap increment s.counts ∙ increment-counts (suc n) (bit b) k (bit-le b);
    fits = k;
    once = s.once;
  }

  dropped-IsSound :
      (n : ℕ) (must : Bool)
      → 0 < n
      → (decrement w).0 ≡ some must
      → IsSound (at_count n)
      → IsSound (dropped must (at_count n))
  unfolding dropped
  dropped-IsSound zero must h e s = elim h [ ]
  dropped-IsSound (suc n) must h e s =
      let p : suc n - 1 ≡ n = omega arith in
      let m =
        some-injective (sym e ∙ ap (λ v. (decrement v).0) s.counts ∙ decrement-must n b s.fits) in
      record {
        counts =
            ap (λ v. (decrement v).1) s.counts
            ∙ decrement-counts n (bit b) s.fits (bit-le b)
            ∙ ap (λ k. k * 2 + bit b) (sym p);
        fits = omega (arith, s.fits);
        once =
            due_once d f (bit must) (releases n b) s.once (ap bit m ∙ released-bit n b)
            ∙ ap (λ k. releases k b) (sym p);
      }

  rebuilt : (n : ℕ) → b ≡ true → IsSound (at_count n) → IsSound (reclaimable n d f)
  unfolding reclaimable
  rebuilt n e s = record { counts = refl; fits = s.fits; once = s.once ∙ ap (releases n) e }

  reclaimed-IsSound : (n : ℕ) → b ≡ true → IsSound (at_count n) → IsSound (reclaimed (at_count n))
  unfolding reclaimed reclaimable
  reclaimed-IsSound n e s = rw (s.counts, e) (reclaimed-reclaimable n d f (rebuilt n e s))

  unclaimed-IsSound : (n : ℕ) → b ≡ true → IsSound (at_count n) → IsSound (unclaimed (at_count n))
  unfolding unclaimed reclaimable make_unreclaimable
  unclaimed-IsSound n e s = rw (s.counts, e) (unclaimed-reclaimable n d f (rebuilt n e s))

  deallocated-IsSound : (n : ℕ) → 0 < d → IsSound (at_count n) → IsSound (deallocated (at_count n))
  unfolding deallocated
  deallocated-IsSound n h s = record {
    counts = s.counts;
    fits = s.fits;
    once = omega (arith, s.once);
  }

pub Step-IsSound : {t u : Threads} → Step t u → IsSound t → IsSound u
Step-IsSound (clones t h k) s = cloned-IsSound t.reclaim t.word t.due t.freed t.refs h k s
Step-IsSound (drops t must h e) s = dropped-IsSound t.reclaim t.word t.due t.freed t.refs must h e s
Step-IsSound (unclaims t e) s = unclaimed-IsSound t.reclaim t.word t.due t.freed t.refs e s
Step-IsSound (reclaims t e) s = reclaimed-IsSound t.reclaim t.word t.due t.freed t.refs e s
Step-IsSound (deallocates t h) s = deallocated-IsSound t.reclaim t.word t.due t.freed t.refs h s

allocated-IsSound : (b : Bool) → IsSound (allocated b)
unfolding allocated new
allocated-IsSound true = record { counts = refl; fits = omega arith; once = refl }
allocated-IsSound false = record { counts = refl; fits = omega arith; once = refl }

last-of : (n : ℕ) (b : Bool) → (releases n b == 1) ≡ (suc n == 1) && not b
last-of zero true = refl
last-of zero false = refl
last-of (suc n) b = ground arith

pub drop-of :
    (n : ℕ) (b : Bool) (w : ℕ)
    → 0 < n
    → w ≡ n * 2 + bit b
    → n * 2 + 1 < usize_mod
    → (decrement w).0 ≡ some ((n == 1) && not b)
drop-of zero b w h c k = elim h [ ]
drop-of (suc n) b w h c k =
    ap (λ v. (decrement v).0) c ∙ decrement-must n b k ∙ ap some (last-of n b)

-- In every state that the threads reach from a new buffer by cloning and dropping references,
-- dropping and using the `Reclaim` and deallocating, where a reference is cloned only while the
-- count fits into the word, the word is twice the number of references, plus one if there is a
-- `Reclaim`; and the deallocations that are done or due are one if there is neither, and none
-- otherwise.
pub reachable-IsSound : (t : Threads) → Reachable t → IsSound t
reachable-IsSound t (start b) = allocated-IsSound b
reachable-IsSound t (after s u r st) = Step-IsSound st (reachable-IsSound s r)

-- In every state that the threads reach, dropping one of the references that exist passes the
-- assertion on the count, and says that the buffer must be deallocated exactly if it is the last
-- reference and there is no `Reclaim`.
pub drop-must :
    (t : Threads)
    → Reachable t
    → 0 < t.refs
    → (decrement t.word).0 ≡ some ((t.refs == 1) && not t.reclaim)
drop-must t r h = let s = reachable-IsSound t r in drop-of t.refs t.reclaim t.word h s.counts s.fits

reclaim-of : (n : ℕ) (b : Bool) (w : ℕ) → w ≡ n * 2 + bit b → (try_reclaim w).0 ≡ (n == 0) && b
unfolding try_reclaim
reclaim-of zero true w c = rw c refl
reclaim-of zero false w c = rw c refl
reclaim-of (suc n) b w c = rw c (ground arith)

-- In every state that the threads reach, `try_reclaim` succeeds exactly if there is no reference
-- and there is a `Reclaim`.
pub reclaim_unique :
    (t : Threads) → Reachable t → (try_reclaim t.word).0 ≡ (t.refs == 0) && t.reclaim
reclaim_unique t r = reclaim-of t.refs t.reclaim t.word (reachable-IsSound t r).counts
