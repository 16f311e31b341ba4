-- ===== src/Arc/Writer/Steps.antt =====
-- The operations of the writer of `ArcBufMut`, beside those of the writer of a partially
-- initialised buffer.
use byst.Prelude.{
  ℕ, ◌+◌, ◌-◌, ◌≤◌, ◌<◌, max, ◌≡◌, refl, ap, inl, inr, Option, some, List, map, arith, ltb, leb,
  ltb→lt, lt→ltb, leb→le, le→leb, Bool-cases, usize_mod, length, take, drop, replicate,
  length-append, length-take, length-drop, length-replicate, ret, map_fail,
}
use byst.Buf.{to_io_full}
use byst.Buf.Fill.{length-map}
use byst.Buf.Partial
use byst.Arc.Ref.{Memory, uninitialized}
use byst.Arc.Mutable.{capacity}
use byst.Arc.Writer.{Writer, put, apply_to, moved, fill_with, zero_from, advance, extend}
use byst.Arc.Writer.Simulate.{
  part, IsBacked, length-uninitialized, set_initialized_to_lem, Simulates, filled_memory,
  filled-uninitialized, filled-IsBacked, put-IsCounted,
}

apply_to_lem :
    (m : Memory) (w : Writer) (len : ℕ) (f : List (Option ℕ) → List (Option ℕ))
    → IsBacked m w.buf
    → w.position + len ≤ capacity w.buf
    → apply_to w.position (w.position + len) f m w.buf.inner
      ≡ some (
          put w.position
            (f (
              take (w.position + len - w.position) (drop w.position (uninitialized m w.buf.inner))))
            m
            w.buf.inner)
unfolding apply_to
apply_to_lem m w len f v h =
    rw
      (
        le→leb w.position (w.position + len) (omega arith),
        length-uninitialized v,
        le→leb (w.position + len) (capacity w.buf) h,
      )
      refl

-- Filling up to an end within the reference.
module _ (m : Memory) (w : Writer) (len : ℕ) (f : List (Option ℕ) → List (Option ℕ))
    (v : IsBacked m w.buf) (g : (b : List (Option ℕ)) → length b ≡ len → length (f b) ≡ len)
    (u : w.position + len < usize_mod) (h : w.position + len ≤ capacity w.buf) where
  abbrev pub end : ℕ
  end = w.position + len

  abbrev pub old : List (Option ℕ)
  old = take (end - w.position) (drop w.position (uninitialized m w.buf.inner))

  length-old : length old ≡ len
  length-old = omega (
    arith,
    length-take (end - w.position) (drop w.position (uninitialized m w.buf.inner)),
    length-drop w.position (uninitialized m w.buf.inner),
    length-uninitialized v,
  )

  pub sum : w.position + length (f old) ≡ end
  sum = ap (w.position +◌) (g old length-old)

  pub arc-fills :
      fill_with len f (m, w)
      ≡ ret tt (filled_memory m w end (f old) v sum h w.buf.inner.tail, moved end w)
  unfolding fill_with
  arc-fills =
      rw
        (
          lt→ltb end usize_mod u,
          le→leb end (capacity w.buf) h,
          apply_to_lem m w len f v h,
          set_initialized_to_lem w.buf.inner.tail end (put w.position (f old) m w.buf.inner) w.buf
              (put-IsCounted w.buf.inner.tail w.position (f old) m w.buf v.counted) refl
              (omega (arith, v.in_memory, v.small)) (omega (arith, v.ordered)),
        )
        refl

  partial-fills :
      Partial.fill_with len f (part (m, w))
      ≡ ret tt
          (record { inner = Partial.filled (part (m, w)).inner w.position end f; position = end })
  unfolding Partial.fill_with part
  partial-fills =
      rw (lt→ltb end usize_mod u, length-uninitialized v, le→leb end (capacity w.buf) h) refl

  part-fills :
      part (filled_memory m w end (f old) v sum h w.buf.inner.tail, moved end w)
      ≡ record { inner = Partial.filled (part (m, w)).inner w.position end f; position = end }
  unfolding part Partial.filled Partial.assume_initialized moved
  part-fills =
      ap
        (λ b. record {
          inner = record { buf = b; initialized = max w.buf.filled end };
          position = end;
        })
        (filled-uninitialized m w end (f old) v sum h w.buf.inner.tail)

  fill_with-fits :
      Simulates
        (map_fail to_io_full (fill_with len f (m, w)))
        (map_fail to_io_full (Partial.fill_with len f (part (m, w))))
  fill_with-fits =
      rw (arc-fills, partial-fills)
        (refl, part-fills, filled-IsBacked m w end (f old) v sum h w.buf.inner.tail refl)

-- Every branch of `fill_with`.
pub fill_with-sim :
    (m : Memory) (w : Writer) (len : ℕ) (f : List (Option ℕ) → List (Option ℕ))
    → IsBacked m w.buf
    → ((b : List (Option ℕ)) → length b ≡ len → length (f b) ≡ len)
    → Simulates
        (map_fail to_io_full (fill_with len f (m, w)))
        (map_fail to_io_full (Partial.fill_with len f (part (m, w))))
unfolding fill_with Partial.fill_with part to_io_full
fill_with-sim m w len f v g = elim (Bool-cases (ltb (w.position + len) usize_mod)) [
  | inr a ↦ rw a tt
  | inl a ↦ elim (Bool-cases (leb (w.position + len) (capacity w.buf))) [
    | inl b ↦ fill_with-fits m w len f v g (ltb→lt _ _ a) (leb→le _ _ b)
    | inr b ↦ rw (a, length-uninitialized v, b) (refl, refl, v)
  ]
]

pub length-zero_from :
    (n by : ℕ) (xs : List (Option ℕ)) → n < by → length xs ≡ by → length (zero_from n xs) ≡ by
length-zero_from n by xs h e = omega (
  arith,
  length-append (take n xs) (replicate (length xs - n) (some 0)),
  length-take n xs,
  length-replicate {A = Option ℕ} (length xs - n) (some 0),
)

pub extend-sim :
    (xs : List ℕ) (m : Memory) (w : Writer)
    → IsBacked m w.buf
    → Simulates (extend xs (m, w)) (Partial.extend xs (part (m, w)))
unfolding extend Partial.extend
extend-sim xs m w v = fill_with-sim m w (length xs) (λ _. map some xs) v (λ b e. length-map xs)

pub advance-sim :
    (by : ℕ) (m : Memory) (w : Writer)
    → IsBacked m w.buf
    → Simulates (advance by (m, w)) (Partial.advance by (part (m, w)))
unfolding advance Partial.advance part
advance-sim by m w v = elim (Bool-cases (leb w.position w.buf.filled)) [
  | inr a ↦ rw a tt
  | inl a ↦ elim (Bool-cases (ltb (w.buf.filled - w.position) by)) [
    | inl b ↦
        rw (a, b)
          (fill_with-sim m w by (zero_from (w.buf.filled - w.position)) v
            (λ xs e. length-zero_from _ by xs (ltb→lt _ _ b) e))
    | inr b ↦ elim (Bool-cases (ltb (w.position + by) usize_mod)) [
      | inl c ↦ rw (a, b, c) (refl, refl, v)
      | inr c ↦ rw (a, b, c) tt
    ]
  ]
]
