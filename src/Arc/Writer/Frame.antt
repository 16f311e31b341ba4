-- ===== src/Arc/Writer/Frame.antt =====
-- References to other parts of the memory than that of a writer of `ArcBufMut`, and the steps of
-- such a writer.
use byst.Prelude.{
  ℕ, ◌+◌, ◌-◌, ◌≤◌, ◌<◌, ◌≡◌, refl, ap, ◌∙◌, ◌⊎◌, inl, inr, Option, some, List, map, arith, ltb,
  leb, ltb→lt, leb→le, Bool-cases, usize_mod, length, between, between-outside, Outcome, ret, fail,
  abort, map_fail,
}
use byst.Buf.{to_io_full}
use byst.Buf.Fill.{length-map}
use byst.Arc.Ref.{Memory, BufferRef}
use byst.Arc.Mutable.{ArcBufMut, capacity}
use byst.Arc.Writer.{
  Writer, State, put, moved, fill_with, zero_from, advance, extend, store, peek_chunk_mut,
}
use byst.Arc.Writer.Simulate.{IsBacked, put-heap, counted_to-buf, length-put}
use byst.Arc.Writer.Steps.{old, sum, arc-fills, length-zero_from}

-- A reference to a part of the memory that has no byte in common with the other's.
pub record IsApart (r : BufferRef) (m : Memory) (b : ArcBufMut) : Type 0 where
  pub ordered : r.start ≤ r.end
  pub in_memory : r.end ≤ length m.buf
  pub apart : (r.end ≤ b.inner.start) ⊎ (b.inner.end ≤ r.start)

-- The part is as before, in memory of the same size, for a writer of the same reference.
pub record Keeps (r : BufferRef) (s t : State) : Type 0 where
  pub bytes : between r.start r.end t.0.buf ≡ between r.start r.end s.0.buf
  pub size : length t.0.buf ≡ length s.0.buf
  pub same : (t.1).buf.inner ≡ (s.1).buf.inner

-- The state that an operation leaves, whichever way it returns.
abbrev pub Leaves : {E A : Type 0} → (State → Type 0) → Outcome State E A → Type 0
Leaves P (ret a s) = P s
Leaves P (fail e s) = P s
Leaves P abort = Unit

module _ (r : BufferRef) (m : Memory) (w : Writer) (v : IsBacked m w.buf)
    (a : IsApart r m w.buf) where
  put-kept :
      (xs : List (Option ℕ))
      → w.position + length xs ≤ capacity w.buf
      → between r.start r.end (put w.position xs m w.buf.inner).buf ≡ between r.start r.end m.buf
  put-kept xs h =
      ap (between r.start r.end) (put-heap w.position xs v)
      ∙ between-outside r.start r.end (w.buf.inner.start + w.position) xs m.buf a.ordered
          a.in_memory (omega (arith, v.ordered, v.in_memory)) (side a.apart)
    where
      side :
          (r.end ≤ w.buf.inner.start) ⊎ (w.buf.inner.end ≤ r.start)
          → (r.end ≤ w.buf.inner.start + w.position)
            ⊎ (w.buf.inner.start + w.position + length xs ≤ r.start)
      side (inl k) = inl (omega arith)
      side (inr k) = inr (omega (arith, v.ordered))

  itself : Keeps r (m, w) (m, w)
  itself = record { bytes = refl; size = refl; same = refl }

  fits-kept :
      (len : ℕ) (f : List (Option ℕ) → List (Option ℕ))
      → ((b : List (Option ℕ)) → length b ≡ len → length (f b) ≡ len)
      → w.position + len < usize_mod
      → w.position + len ≤ capacity w.buf
      → Leaves (Keeps r (m, w)) (map_fail to_io_full (fill_with len f (m, w)))
  unfolding moved
  fits-kept len f g u h =
      let e = sum m w len f v g u h in
      let o = old m w len f v g u h in
      let t = counted_to-buf m w (w.position + len) (f o) v e h w.buf.inner.tail in
      rw (arc-fills m w len f v g u h) (record {
        bytes = ap (between r.start r.end) t ∙ put-kept (f o) (omega (arith, e));
        size = ap length t ∙ length-put w.position (f o) v (omega (arith, e));
        same = refl;
      })

  fill_with-kept :
      (len : ℕ) (f : List (Option ℕ) → List (Option ℕ))
      → ((b : List (Option ℕ)) → length b ≡ len → length (f b) ≡ len)
      → Leaves (Keeps r (m, w)) (map_fail to_io_full (fill_with len f (m, w)))
  unfolding fill_with
  fill_with-kept len f g = elim (Bool-cases (ltb (w.position + len) usize_mod)) [
    | inr k ↦ rw k tt
    | inl k ↦ elim (Bool-cases (leb (w.position + len) (capacity w.buf))) [
      | inr l ↦ rw (k, l) itself
      | inl l ↦ fits-kept len f g (ltb→lt _ _ k) (leb→le _ _ l)
    ]
  ]

  pub extend-kept : (xs : List ℕ) → Leaves (Keeps r (m, w)) (extend xs (m, w))
  unfolding extend
  extend-kept xs = fill_with-kept (length xs) (λ _. map some xs) (λ b e. length-map xs)

  pub advance-kept : (by : ℕ) → Leaves (Keeps r (m, w)) (advance by (m, w))
  unfolding advance
  advance-kept by = elim (Bool-cases (leb w.position w.buf.filled)) [
    | inr k ↦ rw k tt
    | inl k ↦ elim (Bool-cases (ltb (w.buf.filled - w.position) by)) [
      | inl l ↦
          rw (k, l)
            (fill_with-kept by (zero_from (w.buf.filled - w.position))
              (λ xs e. length-zero_from _ by xs (ltb→lt _ _ l) e))
      | inr l ↦ elim (Bool-cases (ltb (w.position + by) usize_mod)) [
        | inl o ↦ rw (k, l, o) (record { bytes = refl; size = refl; same = refl })
        | inr o ↦ rw (k, l, o) tt
      ]
    ]
  ]

  pub store-kept :
      (xs : List ℕ) → w.position + length xs ≤ capacity w.buf → Keeps r (m, w) (store xs (m, w))
  unfolding store
  store-kept xs h =
      let k : w.position + length (map some xs) ≤ capacity w.buf = omega (arith, length-map xs) in
      record {
        bytes = put-kept (map some xs) k;
        size = length-put w.position (map some xs) v k;
        same = refl;
      }

-- The steps that a writer's user takes: bytes put into the chunk that it shows, and the calls that
-- return without an error.
pub data Step : State → State → Type 0 where
  stores :
      (s : State) (xs c : List ℕ)
      → peek_chunk_mut s ≡ some c
      → length xs ≤ length c
      → Step s (store xs s)
  advances : (s t : State) (by : ℕ) → advance by s ≡ ret tt t → Step s t
  extends : (s t : State) (xs : List ℕ) → extend xs s ≡ ret tt t → Step s t

pub data Steps : State → State → Type 0 where
  stays : (s : State) → Steps s s
  goes : (s t u : State) → Steps s t → Step t u → Steps s u
