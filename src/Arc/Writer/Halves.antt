-- ===== src/Arc/Writer/Halves.antt =====
-- The two halves that `ArcBufMut::split_at` of byst/src/buf/arc_buf.rs leaves, each with its
-- writer.
use byst.Prelude.{
  ℕ, ◌+◌, ◌-◌, ◌<◌, min, ◌≡◌, refl, sym, ap, ◌∙◌, subst, ◌≢◌, inl, inr, Bool, true, false, some,
  arith, leb, usize_mod, length, take, drop, drop-take, drop-drop, take-take, between,
  length-between, Result, ok, assert,
}
use byst.Buf.Fill.{IsInit, assume_init, IsInit-take, IsInit-drop}
use byst.Arc.Count.{increment}
use byst.Arc.Ref.{Memory, uninitialized}
use byst.Arc.Shared.Cursor.{heap_ref}
use byst.Arc.Mutable.{ArcBufMut, IndexOutOfBounds, filled, split_at}
use byst.Arc.Mutable.Split.{
  heap_mut, IsFilled, filled_bytes, filled_lem, split-inside, drop-filled, take-filled,
}
use byst.Arc.Writer.{State, new}
use byst.Arc.Writer.Simulate.{part, IsCounted, uninitialized_lem}
use byst.Arc.Writer.Contract.{IsWritable}
use byst.Arc.Writer.Frame.{Steps}
use byst.Arc.Writer.Apart.{Steps-apart}

-- A new writer of a buffer of which what is filled is initialised.
pub new-IsWritable :
    (m : Memory) (s e f : ℕ) (t : Bool)
    → IsFilled m s e f
    → length m.buf < usize_mod
    → IsCounted t m (heap_mut s e t f)
    → IsInit (take f (drop s m.buf))
    → IsWritable (m, new (heap_mut s e t f))
unfolding part
new-IsWritable m s e f t (h, k, l, u) small c i =
    let w : uninitialized m (heap_ref s e t) ≡ between s e m.buf =
      uninitialized_lem m (heap_ref s e t) refl in
    let n : length (uninitialized m (heap_ref s e t)) ≡ e - s =
      ap length w ∙ length-between s e m.buf l in
    record {
      backed = record { heap = refl; ordered = k; in_memory = l; small = small; counted = c };
      sound = record {
        inner = record {
          in_buf = omega (arith, n);
          front =
              subst IsInit
                (ap (λ j. take j (drop s m.buf)) {x = f} {y = min f (e - s)} (omega arith)
                  ∙ sym (take-take f (e - s) (drop s m.buf))
                  ∙ ap (take f) (sym w))
                i;
        };
        within = omega arith;
        small = omega (arith, n);
      };
    }

filled-same :
    (m m' : Memory) (b : ArcBufMut)
    → uninitialized m' b.inner ≡ uninitialized m b.inner
    → filled m' b ≡ filled m b
unfolding filled
filled-same m m' b e =
    ap (λ u. assert (leb b.filled (length u)) (some (assume_init (take b.filled u)))) e

counted-right :
    (m : Memory) (s e f at : ℕ) (t : Bool)
    → at < f
    → IsCounted t m (heap_mut s e t f)
    → IsCounted t (record m { word = increment m.word }) (heap_mut (at + s) e t (f - at))
counted-right m s e f at false h c = tt
counted-right m s e f at true h (c, d) = (omega arith, d)

same_halves :
    {r : Result IndexOutOfBounds (ArcBufMut × Memory × ArcBufMut)}
    {a b : ArcBufMut × Memory × ArcBufMut}
    → r ≡ ok a
    → r ≡ ok b
    → a ≡ b
same_halves h k = cc

-- Writing one of the halves, in the memory that splitting leaves.
module _ (m : Memory) (s e f at : ℕ) (t : Bool) (k : IsFilled m s e f)
    (small : length m.buf < usize_mod) (c : IsCounted t m (heap_mut s e t f))
    (i : IsInit (take f (drop s m.buf))) (p : 0 < at) (q : at < f) where
  abbrev left_half : ArcBufMut
  left_half = heap_mut s (at + s) false at

  abbrev right_half : ArcBufMut
  right_half = heap_mut (at + s) e t (f - at)

  abbrev shared : Memory
  shared = record m { word = increment m.word }

  left-IsFilled : IsFilled shared s (at + s) at
  left-IsFilled = let (h, o, l, u) = k in (omega arith, omega arith, omega arith, omega arith)

  right-IsFilled : IsFilled shared (at + s) e (f - at)
  right-IsFilled = let (h, o, l, u) = k in (omega arith, omega arith, l, u)

  left-IsWritable : IsWritable (shared, new left_half)
  left-IsWritable =
      new-IsWritable shared s (at + s) at false left-IsFilled small tt
        (IsInit-take at f (drop s m.buf) (omega arith) i)

  right-IsWritable : IsWritable (shared, new right_half)
  right-IsWritable =
      new-IsWritable shared (at + s) e (f - at) t right-IsFilled small
        (counted-right m s e f at t q c)
        (subst IsInit
          (drop-take at f (drop s m.buf)
            ∙ ap (take (f - at)) (drop-drop at s m.buf)
            ∙ ap (λ n. take (f - at) (drop n m.buf)) {x = s + at} {y = at + s} (omega arith))
          (IsInit-drop at _ i))

  write-left :
      (u : State)
      → Steps (shared, new left_half) u
      → filled u.0 right_half ≡ some (drop at (filled_bytes m s f))
  write-left u h =
      let (a, o, l, _) = right-IsFilled in
      filled-same shared u.0 right_half
        (Steps-apart (shared, new left_half) u (heap_ref (at + s) e t) left-IsWritable
          (record { ordered = o; in_memory = l; apart = inr (omega arith) }) h).1
      ∙ filled_lem shared (at + s) e (f - at) t right-IsFilled
      ∙ ap some (sym (drop-filled m s f at))

  write-right :
      (u : State)
      → Steps (shared, new right_half) u
      → filled u.0 left_half ≡ some (take at (filled_bytes m s f))
  write-right u h =
      let (a, o, l, _) = left-IsFilled in
      filled-same shared u.0 left_half
        (Steps-apart (shared, new right_half) u (heap_ref s (at + s) false) right-IsWritable
          (record { ordered = o; in_memory = l; apart = inl (omega arith) }) h).1
      ∙ filled_lem shared s (at + s) at false left-IsFilled
      ∙ ap some (sym (take-filled m s f at (omega arith)))

-- Where a filled, initialised and counted reference is split inside what is filled, and not at
-- its own start, whatever steps the writer of the left half takes leave the filled bytes of the
-- right half as they were, and the other way round.
pub halves-independent :
    (m : Memory) (s e f at : ℕ) (t : Bool) (left right : ArcBufMut) (m' : Memory) (u v : State)
    → IsFilled m s e f
    → length m.buf < usize_mod
    → IsCounted t m (heap_mut s e t f)
    → IsInit (take f (drop s m.buf))
    → 0 < at
    → at < f
    → at ≢ s
    → split_at at m (heap_mut s e t f) ≡ ok (left, m', right)
    → Steps (m', new left) u
    → Steps (m', new right) v
    → (filled u.0 right ≡ some (drop at (filled_bytes m s f)))
      × (filled v.0 left ≡ some (take at (filled_bytes m s f)))
halves-independent m s e f at t left right m' u v k small c i p q n h x y =
    let j = same_halves (split-inside m s e f at t k p q n) h in
    (
      subst
          (λ (l, m1, r).
            (u : State) → Steps (m1, new l) u → filled u.0 r ≡ some (drop at (filled_bytes m s f)))
          j (write-left m s e f at t k small c i p q) u x,
      subst
          (λ (l, m1, r).
            (u : State) → Steps (m1, new r) u → filled u.0 l ≡ some (take at (filled_bytes m s f)))
          j (write-right m s e f at t k small c i p q) v y,
    )
