-- ===== src/Arc/Writer/Simulate.antt =====
-- The part of the shared memory that a writer of `ArcBufMut` writes, seen as a partially
-- initialised buffer.
use byst.Prelude.{
  ℕ, ◌+◌, ◌≤◌, ◌<◌, max, ◌≡◌, refl, sym, ap, ◌∙◌, subst, Bool, true, false, Option, some, List,
  arith, if◌then◌else◌, lt→ltb, le→leb, usize_mod, length, overlay_at, length-overlay_at, between,
  length-between, between-inside, Outcome, ret, fail, abort,
}
use byst.Buf.Partial
use byst.Buf.Partial.{PartiallyInitialized, assume_initialized, filled}
use byst.Arc.Ref.{Memory, BufferRef, uninitialized, set_initialized_to, in_bounds}
use byst.Arc.Mutable.{ArcBufMut, capacity}
use byst.Arc.Writer.{Writer, State, put, moved}

-- The part that the reference covers, of which what is filled is initialised.
unfoldable pub part : State → Partial.Writer
part (m, w) = record {
  inner = record { buf = uninitialized m w.buf.inner; initialized = w.buf.filled };
  position = w.position;
}

-- Where the tail of the memory is initialised, for the reference to it.
abbrev pub IsCounted : Bool → Memory → ArcBufMut → Type 0
IsCounted false m b = Unit
IsCounted true m b = (b.inner.start + b.filled ≤ m.initialized) × (m.initialized ≤ b.inner.end)

-- The reference is one to the memory, in which it lies, and what it counts as filled is counted as
-- initialised.
pub record IsBacked (m : Memory) (b : ArcBufMut) : Type 0 where
  pub heap : b.inner.heap ≡ true
  pub ordered : b.inner.start ≤ b.inner.end
  pub in_memory : b.inner.end ≤ length m.buf
  pub small : length m.buf < usize_mod
  pub counted : IsCounted b.inner.tail m b

pub uninitialized_lem :
    (m : Memory) (r : BufferRef) → r.heap ≡ true → uninitialized m r ≡ between r.start r.end m.buf
unfolding uninitialized
uninitialized_lem m r h = rw h refl

pub length-uninitialized :
    {m : Memory} {b : ArcBufMut} → IsBacked m b → length (uninitialized m b.inner) ≡ capacity b
length-uninitialized {m} {b} v =
    ap length (uninitialized_lem m b.inner v.heap)
    ∙ length-between b.inner.start b.inner.end m.buf v.in_memory

pub put-heap :
    {m : Memory} {b : ArcBufMut} (pos : ℕ) (xs : List (Option ℕ))
    → IsBacked m b
    → (put pos xs m b.inner).buf ≡ overlay_at (b.inner.start + pos) xs m.buf
unfolding put
put-heap {m} {b} pos xs v = rw v.heap refl

-- What is put into the memory is put over the part that the reference covers.
pub uninitialized-put :
    {m : Memory} {b : ArcBufMut} (pos : ℕ) (xs : List (Option ℕ))
    → IsBacked m b
    → pos + length xs ≤ capacity b
    → uninitialized (put pos xs m b.inner) b.inner ≡ overlay_at pos xs (uninitialized m b.inner)
uninitialized-put {m} {b} pos xs v h =
    uninitialized_lem (put pos xs m b.inner) b.inner v.heap
    ∙ ap (between b.inner.start b.inner.end) (put-heap pos xs v)
    ∙ between-inside b.inner.start b.inner.end pos xs m.buf (omega (arith, v.ordered, h))
        v.in_memory
    ∙ ap (overlay_at pos xs) (sym (uninitialized_lem m b.inner v.heap))

pub length-put :
    {m : Memory} {b : ArcBufMut} (pos : ℕ) (xs : List (Option ℕ))
    → IsBacked m b
    → pos + length xs ≤ capacity b
    → length (put pos xs m b.inner).buf ≡ length m.buf
length-put {m} {b} pos xs v h =
    ap length (put-heap pos xs v)
    ∙ length-overlay_at (b.inner.start + pos) xs m.buf (omega (arith, v.ordered, v.in_memory, h))

pub put-IsCounted :
    (t : Bool) (pos : ℕ) (xs : List (Option ℕ)) (m : Memory) (b : ArcBufMut)
    → IsCounted t m b
    → IsCounted t (put pos xs m b.inner) b
unfolding put
put-IsCounted false pos xs m b c = c
put-IsCounted true pos xs m b c = c

abbrev pub counted_to : Bool → ℕ → Memory → BufferRef → Memory
counted_to tail end m r =
    if tail then record m { initialized = max m.initialized (r.start + end) } else m

-- Marking as initialised a part that is in the reference.
pub set_initialized_to_lem :
    (tail : Bool) (end : ℕ) (m : Memory) (b : ArcBufMut)
    → IsCounted tail m b
    → b.inner.tail ≡ tail
    → b.inner.end < usize_mod
    → b.inner.start + end ≤ b.inner.end
    → set_initialized_to end m b.inner ≡ some (counted_to tail end m b.inner)
unfolding set_initialized_to in_bounds
set_initialized_to_lem false end m b c t u h =
    rw (t, lt→ltb (b.inner.start + end) usize_mod (omega arith), le→leb (b.inner.start + end) _ h)
      refl
set_initialized_to_lem true end m b (c, d) t u h =
    rw
      (
        t,
        lt→ltb (b.inner.start + end) usize_mod (omega arith),
        le→leb (b.inner.start + end) _ h,
        le→leb b.inner.start m.initialized (omega arith),
        le→leb m.initialized b.inner.end d,
      )
      refl

-- The outcome of an operation of the writer, beside that of the other writer on its part.
abbrev pub Simulates : {E A : Type 0} → Outcome State E A → Outcome Partial.Writer E A → Type 0
Simulates (ret a (m, w)) (ret b p) = (a ≡ b) × (part (m, w) ≡ p) × IsBacked m w.buf
Simulates (fail e (m, w)) (fail d p) = (e ≡ d) × (part (m, w) ≡ p) × IsBacked m w.buf
Simulates abort abort = Unit
Simulates _ _ = ⊥

-- The state that filling leaves.
module _ (m : Memory) (w : Writer) (end : ℕ) (ys : List (Option ℕ)) (v : IsBacked m w.buf)
    (e : w.position + length ys ≡ end) (h : end ≤ capacity w.buf) where
  abbrev pub filled_memory : Bool → Memory
  filled_memory t = counted_to t end (put w.position ys m w.buf.inner) w.buf.inner

  pub counted_to-buf : (t : Bool) → (filled_memory t).buf ≡ (put w.position ys m w.buf.inner).buf
  counted_to-buf false = refl
  counted_to-buf true = refl

  pub filled-uninitialized :
      (t : Bool)
      → uninitialized (filled_memory t) w.buf.inner
        ≡ overlay_at w.position ys (uninitialized m w.buf.inner)
  filled-uninitialized t =
      uninitialized_lem (filled_memory t) w.buf.inner v.heap
      ∙ ap (between w.buf.inner.start w.buf.inner.end) (counted_to-buf t)
      ∙ sym (uninitialized_lem (put w.position ys m w.buf.inner) w.buf.inner v.heap)
      ∙ uninitialized-put w.position ys v (omega arith)

  filled-IsCounted :
      (t : Bool) → IsCounted t m w.buf → IsCounted t (filled_memory t) (moved end w).buf
  unfolding moved put
  filled-IsCounted false c = tt
  filled-IsCounted true (c, d) = (omega arith, omega (arith, v.ordered))

  pub filled-IsBacked :
      (t : Bool) → w.buf.inner.tail ≡ t → IsBacked (filled_memory t) (moved end w).buf
  unfolding moved
  filled-IsBacked t k =
      let l : length (filled_memory t).buf ≡ length m.buf =
        ap length (counted_to-buf t) ∙ length-put w.position ys v (omega arith) in
      record {
        heap = v.heap;
        ordered = v.ordered;
        in_memory = omega (arith, l, v.in_memory);
        small = omega (arith, l, v.small);
        counted =
            subst (λ b. IsCounted b (filled_memory t) (moved end w).buf) (sym k)
              (filled-IsCounted t (subst (λ b. IsCounted b m w.buf) k v.counted));
      }
