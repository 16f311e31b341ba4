-- ===== src/Arc/Writer/Contract.antt =====
-- The writer of `ArcBufMut`, of byst/src/buf/arc_buf.rs, beside the contract of `BufWriter`.
use byst.Prelude.{
  ℕ, ◌+◌, ◌-◌, ◌≤◌, ◌≡◌, refl, sym, ap, ◌∙◌, subst, ◌⊎◌, inl, inr, Bool, true, false, some, List,
  ◌++◌, map, arith, ltb, leb, le→leb, Bool-cases, usize_mod, length, take, drop, replicate, overlay,
  Outcome, ret, fail, abort,
}
use byst.Io.Interface
use byst.Io.Interface.{BufWriter, full_at}
use byst.Io.Laws.{Peeks, IsBufWriter, IsWriterOf}
use byst.Buf.{to_io_full}
use byst.Buf.Fill.{length-map}
use byst.Buf.Partial
use byst.Buf.Partial.Writes
use byst.Buf.Partial.Writes.{IsSound, length-after, partial-peeks, partial-stores, partial-extends}
use byst.Buf.Partial.Contract.{leb_trans, partial-holds, partial-advances}
use byst.Arc.Ref.{Memory}
use byst.Arc.Mutable
use byst.Arc.Mutable.{ArcBufMut, capacity}
use byst.Arc.Writer.{
  Writer, State, put, fill_with, advance, extend, store, peek_chunk_mut, arc_writer,
}
use byst.Arc.Writer.Steps.{extend-sim, advance-sim}
use byst.Arc.Writer.Simulate.{
  part, IsBacked, length-uninitialized, uninitialized-put, length-put, Simulates, put-IsCounted,
}

-- The buffer is backed by the memory, and its part is one that the writer keeps.
pub record IsWritable (s : State) : Type 0 where
  pub backed : IsBacked s.0 (s.1).buf
  pub sound : IsSound (part s)

-- What holds of the state that the other writer leaves holds of the part.
transfer :
    {E : Type 0} (o : Outcome State E (Unit {0})) (p : Partial.Writer) (Q : Partial.Writer → Type 0)
    → Simulates o (ret tt p)
    → Q p
    → (s : State) × (o ≡ ret tt s) × IsBacked s.0 (s.1).buf × Q (part s)
transfer (ret tt (m, w)) p Q (e, k, v) q = ((m, w), refl, v, subst Q (sym k) q)
transfer (fail e s) p Q h q = absurd h
transfer abort p Q h q = absurd h

refused :
    (xs : List ℕ) (m : Memory) (w : Writer)
    → IsBacked m w.buf
    → leb (w.position + length xs) (capacity w.buf) ≡ false
    → (extend xs (m, w) ≡ abort)
      ⊎ ((e : Interface.Full) × (extend xs (m, w) ≡ fail e (m, w)) × (e.written ≡ 0))
unfolding extend fill_with to_io_full
refused xs m w v h = elim (Bool-cases (ltb (w.position + length xs) usize_mod)) [
  | inr e ↦ inl (rw e refl)
  | inl e ↦ inr (full_at (length xs) (capacity w.buf), rw (e, h) refl, refl)
]

peek_chunk_mut-part :
    (m : Memory) (w : Writer)
    → IsBacked m w.buf
    → w.buf.filled ≤ capacity w.buf
    → peek_chunk_mut (m, w) ≡ Partial.peek_chunk_mut (part (m, w))
unfolding peek_chunk_mut Partial.peek_chunk_mut part Mutable.filled Partial.bytes
peek_chunk_mut-part m w v h =
    rw (length-uninitialized v, le→leb w.buf.filled (capacity w.buf) h) refl

store-part :
    (xs : List ℕ) (m : Memory) (w : Writer)
    → IsBacked m w.buf
    → w.position + length xs ≤ capacity w.buf
    → part (store xs (m, w)) ≡ Partial.store xs (part (m, w))
unfolding store Partial.store part
store-part xs m w v h =
    ap
      (λ b. record {
        inner = record { buf = b; initialized = w.buf.filled };
        position = w.position;
      })
      (uninitialized-put w.position (map some xs) v (omega (arith, length-map xs)))

store-IsBacked :
    (xs : List ℕ) (m : Memory) (w : Writer)
    → IsBacked m w.buf
    → w.position + length xs ≤ capacity w.buf
    → IsBacked (store xs (m, w)).0 (store xs (m, w)).1.buf
unfolding store
store-IsBacked xs m w v h =
    let l : length (put w.position (map some xs) m w.buf.inner).buf ≡ length m.buf =
      length-put w.position (map some xs) v (omega (arith, length-map xs)) in
    record {
      heap = v.heap;
      ordered = v.ordered;
      in_memory = omega (arith, l, v.in_memory);
      small = omega (arith, l, v.small);
      counted = put-IsCounted w.buf.inner.tail w.position (map some xs) m w.buf v.counted;
    }

abbrev pub before : State → List ℕ
before s = Writes.before (part s)

abbrev pub after : State → List ℕ
after s = Writes.after (part s)

abbrev pub fits : State → ℕ → Bool
fits s n = Writes.fits (part s) n

-- The operation of the other writer that succeeds, and what it leaves.
module _ (s : State) (v : IsWritable s) where
  pub arc-peeks : Peeks (peek_chunk_mut s) (after s)
  unfolding part
  arc-peeks =
      let k = v.sound.inner.in_buf in
      subst (λ o. Peeks o (after s))
        (sym
          (peek_chunk_mut-part s.0 s.1 v.backed (omega (arith, k, length-uninitialized v.backed))))
        (partial-peeks (part s) v.sound)

  pub arc-stores :
      (xs : List ℕ)
      → length xs ≤ length (after s)
      → IsWritable (store xs s)
        × (before (store xs s) ≡ before s)
        × (after (store xs s) ≡ overlay xs (after s))
        × ((n : ℕ) → fits (store xs s) n ≡ fits s n)
  unfolding part
  arc-stores xs h =
      let k : (s.1).position + length xs ≤ capacity (s.1).buf = omega (
        arith,
        h,
        length-after v.sound,
        v.sound.within,
        v.sound.inner.in_buf,
        length-uninitialized v.backed,
      ) in
      let (i, b, a, f) =
        subst
          (λ p.
            IsSound p
            × (Writes.before p ≡ before s)
            × (Writes.after p ≡ overlay xs (after s))
            × ((n : ℕ) → Writes.fits p n ≡ fits s n))
          (sym (store-part xs s.0 s.1 v.backed k)) (partial-stores xs (part s) v.sound h) in
      (record { backed = store-IsBacked xs s.0 s.1 v.backed k; sound = i }, b, a, f)

  pub arc-advances :
      (n : ℕ)
      → fits s n ≡ true
      → (s' : State) × (advance n s ≡ ret tt s')
        × IsWritable s'
        × (before s' ≡ before s ++ (take n (after s) ++ replicate (n - length (after s)) 0))
        × (after s' ≡ drop n (after s))
        × ((m : ℕ) → fits s' m ≡ fits s (n + m))
  arc-advances n h =
      let (w', e, k, l, j, f) = partial-advances n (part s) v.sound h in
      let (s', o, b, (i, x, y, z)) =
        transfer (advance n s) w'
          (λ p.
            IsSound p
            × (Writes.before p
                ≡ before s ++ (take n (after s) ++ replicate (n - length (after s)) 0))
            × (Writes.after p ≡ drop n (after s))
            × ((m : ℕ) → Writes.fits p m ≡ fits s (n + m)))
          (subst (Simulates (advance n s)) e (advance-sim n s.0 s.1 v.backed)) (k, l, j, f) in
      (s', o, record { backed = b; sound = i }, x, y, z)

  pub arc-extends :
      (xs : List ℕ)
      → fits s (length xs) ≡ true
      → (s' : State) × (extend xs s ≡ ret tt s')
        × IsWritable s'
        × (before s' ≡ before s ++ xs)
        × (after s' ≡ drop (length xs) (after s))
        × ((m : ℕ) → fits s' m ≡ fits s (length xs + m))
  arc-extends xs h =
      let (w', e, k, l, j, f) = partial-extends xs (part s) v.sound h in
      let (s', o, b, (i, x, y, z)) =
        transfer (extend xs s) w'
          (λ p.
            IsSound p
            × (Writes.before p ≡ before s ++ xs)
            × (Writes.after p ≡ drop (length xs) (after s))
            × ((m : ℕ) → Writes.fits p m ≡ fits s ((length xs) + m)))
          (subst (Simulates (extend xs s)) e (extend-sim xs s.0 s.1 v.backed)) (k, l, j, f) in
      (s', o, record { backed = b; sound = i }, x, y, z)

pub arc-refuses :
    (xs : List ℕ) (s : State)
    → IsWritable s
    → fits s (length xs) ≡ false
    → (extend xs s ≡ abort) ⊎ ((e : Interface.Full) × (extend xs s ≡ fail e s) × (e.written ≡ 0))
unfolding part
arc-refuses xs (m, w) v h =
    refused xs m w v.backed
      (ap (leb (w.position + length xs)) (sym (length-uninitialized v.backed)) ∙ h)

unfoldable pub arc_contract : IsBufWriter arc_writer
unfolding arc_writer
arc_contract = record {
  valid = IsWritable;
  before = before;
  after = after;
  fits = fits;
  peeks = arc-peeks;
  stores = λ xs s v h. arc-stores s v xs h;
  shrinks = λ n m s h e. leb_trans (part s).position n m (length (part s).inner.buf) h e;
  holds = λ n s v h. partial-holds n (part s) v.sound h;
  advances = λ n s v h. arc-advances s v n h;
  extends = λ xs s v h. arc-extends s v xs h;
  refuses = arc-refuses;
}

-- The writer of an `ArcBufMut` keeps the contract of the writers on all states where the
-- reference lies in memory below 2^64 bytes, its filled bytes are initialised and, at the tail,
-- counted as such, and the cursor is within them: the bytes before it are the filled ones before
-- the cursor, those after it the filled ones behind, and what fits is what ends within the
-- reference. So it shows, overwrites and steps over the bytes ahead, extends and skips beyond
-- them, with zeros where it skips, and refuses to extend by what does not fit, with an error or
-- a panic.
pub arc_writer-IsWriterOf : IsWriterOf arc_writer IsWritable before after fits
unfolding arc_contract
arc_writer-IsWriterOf = (arc_contract, refl, refl, refl, refl)
