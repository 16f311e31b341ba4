-- ===== src/Buf/Partial/Contract.antt =====
-- The writer of `PartiallyInitialized`, of byst/src/buf/partially_initialized.rs, beside the
-- contract of `BufWriter`.
use byst.Prelude.{
  ℕ, ◌+◌, ◌-◌, ◌≤◌, ◌<◌, min, ◌≡◌, refl, sym, ap, ap₂, ◌∙◌, ◌⊎◌, inl, inr, true, false, Option,
  some, List, ◌++◌, map, append-nil, arith, ltb, leb, lt→ltb, le→ltb, leb→le, le→leb, Bool-cases,
  le-or-lt, usize_mod, length, take, drop, replicate, length-append, take-add, drop-take,
  length-take, length-drop, length-replicate, take_all, drop-drop, take-take, ret, fail, abort,
  map_fail,
}
use byst.Io.Interface
use byst.Io.Interface.{BufWriter, full_at}
use byst.Io.Laws.{IsBufWriter, IsWriterOf}
use byst.Buf.{to_io_full}
use byst.Buf.Fill.{map-append, map-replicate, map-assume_init, drop-map}
use byst.Buf.Partial.{bytes, Writer, fill_with, zero_from, advance, extend, partial_writer}
use byst.Buf.Partial.Writes.{
  IsSound, before, after, fits, length-after, partial-peeks, partial-stores, out, fill_with-out,
  out-IsSound, out-before, out-after, out-fits, partial-extends,
}

zero_from-map :
    (n m : ℕ) (xs : List ℕ) (b : List (Option ℕ))
    → take n b ≡ map some xs
    → length b ≡ m
    → zero_from n b ≡ map some (xs ++ replicate (m - n) 0)
zero_from-map n m xs b e l =
    ap₂ ◌++◌ e (ap (λ k. replicate (k - n) (some 0)) l ∙ sym (map-replicate (m - n) 0))
    ∙ sym (map-append xs (replicate (m - n) 0))

-- the bytes after the cursor, in memory
after_memory :
    {w : Writer}
    → IsSound w
    → take (w.inner.initialized - w.position) (drop w.position w.inner.buf) ≡ map some (after w)
unfolding bytes
after_memory {w} v =
    sym (drop-take w.position w.inner.initialized w.inner.buf)
    ∙ ap (drop w.position)
        (sym (map-assume_init (take w.inner.initialized w.inner.buf) v.inner.front))
    ∙ drop-map w.position (bytes w.inner)

-- Beyond the initialised bytes `advance` fills with zeros.
module _ (by : ℕ) (w : Writer) (v : IsSound w) (far : w.inner.initialized - w.position < by)
    (h : fits w by ≡ true) where
  abbrev rest : ℕ
  rest = w.inner.initialized - w.position

  abbrev padded : List ℕ
  padded = after w ++ replicate (by - rest) 0

  padded-fills :
      zero_from rest (take (w.position + by - w.position) (drop w.position w.inner.buf))
      ≡ map some padded
  padded-fills =
      zero_from-map rest by (after w) _
        (take-take rest (w.position + by - w.position) (drop w.position w.inner.buf)
          ∙ ap (λ k. take k (drop w.position w.inner.buf))
              {x = min rest (w.position + by - w.position)} {y = rest} (omega arith)
          ∙ after_memory v)
        (omega (
          arith,
          length-take (w.position + by - w.position) (drop w.position w.inner.buf),
          length-drop w.position w.inner.buf,
          leb→le _ _ h,
        ))

  length-padded : length padded ≡ by
  length-padded = omega (
    arith,
    length-append (after w) (replicate (by - rest) 0),
    length-replicate {A = ℕ} (by - rest) 0,
    length-after v,
  )

  advance-far : advance by w ≡ map_fail to_io_full (fill_with by (zero_from rest) w)
  unfolding advance
  advance-far = rw (le→leb _ _ v.within, lt→ltb _ _ far)

  before-padded : padded ≡ take by (after w) ++ replicate (by - length (after w)) 0
  before-padded =
      ap₂ (λ xs k. xs ++ replicate (by - k) 0)
        (sym (take_all by (after w) (omega (arith, length-after v)))) (sym (length-after v))

advance-near :
    (by : ℕ) (w : Writer)
    → IsSound w
    → by ≤ w.inner.initialized - w.position
    → advance by w ≡ ret tt (record w { position = w.position + by })
unfolding advance
advance-near by w v k = rw (
  le→leb _ _ v.within,
  le→ltb _ _ k,
  lt→ltb (w.position + by) usize_mod (omega (arith, v.within, v.small, v.inner.in_buf)),
)

pub partial-advances :
    (by : ℕ) (w : Writer)
    → IsSound w
    → fits w by ≡ true
    → (w' : Writer) × (advance by w ≡ ret tt w')
      × IsSound w'
      × (before w' ≡ before w ++ (take by (after w) ++ replicate (by - length (after w)) 0))
      × (after w' ≡ drop by (after w))
      × ((m : ℕ) → fits w' m ≡ fits w (by + m))
partial-advances by w v h = elim (le-or-lt by (w.inner.initialized - w.position)) [
  | inl k ↦ (
    record w { position = w.position + by },
    advance-near by w v k,
    record { inner = v.inner; within = omega (arith, v.within); small = v.small },
    sym (
        ap (λ n. before w ++ (take by (after w) ++ replicate n 0)) {y = 0}
          (omega (arith, length-after v))
        ∙ ap (before w ++◌) (append-nil _)
        ∙ take-add w.position by (bytes w.inner)),
    sym (drop-drop by w.position (bytes w.inner)),
    λ m. ap (λ n. leb n (length w.inner.buf)) {x = w.position + by + m} (omega arith),
  )
  | inr k ↦
      let f = zero_from (w.inner.initialized - w.position) in
      let xs = padded by w v k h in
      let e = padded-fills by w v k h in
      let l = length-padded by w v k h in
      (
        out by xs f w v e l h,
        advance-far by w v k h ∙ ap (map_fail to_io_full) (fill_with-out by xs f w v e l h),
        out-IsSound by xs f w v e l h,
        out-before by xs f w v e l h ∙ ap (before w ++◌) (before-padded by w v k h),
        out-after by xs f w v e l h,
        out-fits by xs f w v e l h,
      )
]

pub partial-holds : (n : ℕ) (w : Writer) → IsSound w → n ≤ length (after w) → fits w n ≡ true
partial-holds n w v h = le→leb _ _ (omega (arith, length-after v, v.within, v.inner.in_buf))

pub partial-refuses :
    (xs : List ℕ) (w : Writer)
    → IsSound w
    → fits w (length xs) ≡ false
    → (extend xs w ≡ abort) ⊎ ((e : Interface.Full) × (extend xs w ≡ fail e w) × (e.written ≡ 0))
unfolding extend fill_with
partial-refuses xs w v h = elim (Bool-cases (ltb (w.position + length xs) usize_mod)) [
  | inr e ↦ inl (rw e)
  | inl e ↦ inr (full_at (length xs) (length w.inner.buf), rw (e, h), refl)
]

pub leb_trans : (a n m k : ℕ) → n ≤ m → leb (a + m) k ≡ true → leb (a + n) k ≡ true
leb_trans a n m k h e = ground arith

-- The writer of a partially initialised buffer keeps the contract of a writer: it writes over the
-- initialised bytes, then beyond them up to the capacity, initialising what it steps over.
unfoldable pub partial_contract : IsBufWriter partial_writer
unfolding partial_writer
partial_contract = record {
  valid = IsSound;
  before = before;
  after = after;
  fits = fits;
  peeks = partial-peeks;
  stores = partial-stores;
  shrinks = λ n m w h e. leb_trans w.position n m (length w.inner.buf) h e;
  holds = partial-holds;
  advances = partial-advances;
  extends = partial-extends;
  refuses = partial-refuses;
}

-- The writer of a partially initialised buffer keeps the contract of the writers on all states
-- whose counted front is initialised, whose cursor is within it, and whose memory is below 2^64
-- bytes: the bytes before it are the initialised ones before the cursor, those after it the
-- initialised ones behind, and what fits is what ends within the capacity. So it shows,
-- overwrites and steps over the bytes ahead, extends and skips beyond them, with zeros where it
-- skips, and refuses to extend by what does not fit, with an error or a panic.
pub partial_writer-IsWriterOf : IsWriterOf partial_writer IsSound before after fits
unfolding partial_contract
partial_writer-IsWriterOf = (partial_contract, refl, refl, refl, refl)
