-- ===== src/Arc/Writer/Apart.antt =====
-- Steps of a writer of `ArcBufMut`, beside the references to other parts of the memory.
use byst.Prelude.{
  ℕ, ◌+◌, ◌-◌, ◌≤◌, ◌<◌, ◌≡◌, refl, sym, ap, ◌∙◌, subst, ◌⊎◌, inl, inr, false, some, List, [],
  arith, ltb, leb, if◌then◌else◌, lt→ltb, le→leb, Bool-cases, usize_mod, length, Outcome, ret, fail,
  abort,
}
use byst.Io.Interface
use byst.Io.Laws.{Peeks}
use byst.Buf.Partial.Writes.{length-after}
use byst.Arc.Ref.{Memory, BufferRef, uninitialized}
use byst.Arc.Mutable.{capacity}
use byst.Arc.Writer.{Writer, State, fill_with, advance, peek_chunk_mut}
use byst.Arc.Writer.Simulate.{part, length-uninitialized}
use byst.Arc.Writer.Contract.{
  IsWritable, fits, after, arc-peeks, arc-stores, arc-advances, arc-extends, arc-refuses,
}
use byst.Arc.Writer.Frame.{
  IsApart, Keeps, Leaves, extend-kept, advance-kept, store-kept, Step, stores, advances, extends,
  Steps, stays, goes,
}

leb-false : (a b : ℕ) → leb a b ≡ false → b < a
leb-false a b h = ground arith

abbrev IsReturned : {E A : Type 0} → Outcome State E A → Type 0
IsReturned (ret a s) = Unit
IsReturned (fail e s) = ⊥
IsReturned abort = ⊥

advance-refused :
    (by : ℕ) (m : Memory) (w : Writer)
    → IsWritable (m, w)
    → leb (w.position + by) (capacity w.buf) ≡ false
    → ¬ IsReturned (advance by (m, w))
unfolding advance fill_with part
advance-refused by m w v h =
    let k : w.position ≤ w.buf.filled = v.sound.within in
    let l : w.buf.filled < w.position + by =
      omega (arith, v.sound.inner.in_buf, length-uninitialized v.backed, leb-false _ _ h) in
    elim (Bool-cases (ltb (w.position + by) usize_mod)) [
      | inr e ↦ rw (le→leb _ _ k, lt→ltb (w.buf.filled - w.position) by (omega arith), e) (λ x. x)
      | inl e ↦
          rw (le→leb _ _ k, lt→ltb (w.buf.filled - w.position) by (omega arith), e, h) (λ x. x)
    ]

refused-step :
    (by : ℕ) (s t : State) → IsWritable s → fits s by ≡ false → advance by s ≡ ret tt t → ⊥
unfolding part
refused-step by (m, w) t v h e =
    advance-refused by m w v (ap (leb (w.position + by)) (sym (length-uninitialized v.backed)) ∙ h)
      (subst IsReturned (sym e) tt)

-- A state that a call returned is the one that it is shown to return.
same_state :
    {o : Outcome State Interface.Full (Unit {0})} {s t : State}
    → o ≡ ret tt s
    → o ≡ ret tt t
    → s ≡ t
same_state h k = cc

-- What fits into the chunk fits into the bytes ahead, and into the reference.
chunk-length :
    {s : State} {c : List ℕ}
    → IsWritable s
    → peek_chunk_mut s ≡ some c
    → length c ≤ length (after s)
chunk-length {s} {c} v e = (subst (λ o. Peeks o (after s)) e (arc-peeks s v)).2

chunk-capacity :
    {s : State} {c : List ℕ} (xs : List ℕ)
    → IsWritable s
    → peek_chunk_mut s ≡ some c
    → length xs ≤ length c
    → (s.1).position + length xs ≤ capacity (s.1).buf
unfolding part
chunk-capacity {s} xs v e h = omega (
  arith,
  chunk-length v e,
  length-after v.sound,
  v.sound.within,
  v.sound.inner.in_buf,
  length-uninitialized v.backed,
)

pub Step-IsWritable : {s t : State} → Step s t → IsWritable s → IsWritable t
Step-IsWritable (stores s xs c e h) v = (arc-stores s v xs (omega (arith, h, chunk-length v e))).0
Step-IsWritable (advances s t by e) v = elim (Bool-cases (fits s by)) [
  | inl h ↦ let (t', e', k, _, _, _) = arc-advances s v by h in subst IsWritable (same_state e' e) k
  | inr h ↦ absurd (refused-step by s t v h e)
]
Step-IsWritable (extends s t xs e) v = elim (Bool-cases (fits s (length xs))) [
  | inl h ↦ let (t', e', k, _, _, _) = arc-extends s v xs h in subst IsWritable (same_state e' e) k
  | inr h ↦ elim (arc-refuses xs s v h) [
    | inl k ↦ absurd (subst IsReturned (sym e ∙ k) tt)
    | inr k ↦ absurd (subst IsReturned (sym e ∙ k.1) tt)
  ]
]

-- The part of a reference that is apart, after a step.
Step-kept :
    {s t : State} {r : BufferRef} → Step s t → IsWritable s → IsApart r s.0 (s.1).buf → Keeps r s t
Step-kept {r = r} (stores s xs c e h) v a =
    store-kept r s.0 s.1 v.backed a xs (chunk-capacity xs v e h)
Step-kept {r = r} (advances s t by e) v a =
    subst (Leaves (Keeps r s)) e (advance-kept r s.0 s.1 v.backed a by)
Step-kept {r = r} (extends s t xs e) v a =
    subst (Leaves (Keeps r s)) e (extend-kept r s.0 s.1 v.backed a xs)

kept-IsApart :
    {s t : State} {r : BufferRef} → Keeps r s t → IsApart r s.0 (s.1).buf → IsApart r t.0 (t.1).buf
kept-IsApart {s} {t} {r} k a = record {
  ordered = a.ordered;
  in_memory = omega (arith, a.in_memory, k.size);
  apart = subst (λ b. (r.end ≤ b.start) ⊎ (b.end ≤ r.start)) (sym k.same) a.apart;
}

kept_trans : {s t u : State} {r : BufferRef} → Keeps r s t → Keeps r t u → Keeps r s u
kept_trans k l = record {
  bytes = l.bytes ∙ k.bytes;
  size = l.size ∙ k.size;
  same = l.same ∙ k.same;
}

Steps-kept :
    {s t : State} {r : BufferRef}
    → Steps s t
    → IsWritable s
    → IsApart r s.0 (s.1).buf
    → IsWritable t × Keeps r s t
Steps-kept (stays s) v a = (v, record { bytes = refl; size = refl; same = refl })
Steps-kept (goes s t u h k) v a =
    let (w, l) = Steps-kept h v a in
    (Step-IsWritable k w, kept_trans l (Step-kept k w (kept-IsApart l a)))

-- Steps of a writer, each of which stores into the chunk it peeked, advances or extends, keep
-- the reference writable, and leave the memory of every reference that lies in the allocation
-- apart from the writer's.
pub Steps-apart :
    (s t : State) (r : BufferRef)
    → IsWritable s
    → IsApart r s.0 (s.1).buf
    → Steps s t
    → IsWritable t × (uninitialized t.0 r ≡ uninitialized s.0 r)
unfolding uninitialized
Steps-apart s t r v a h =
    let (w, k) = Steps-kept h v a in (w, ap (λ b. if r.heap then b else []) k.bytes)
