-- ===== src/Arc/Mutable/Split.antt =====
-- Splitting and freezing an `ArcBufMut`.
use byst.Prelude.{
  ℕ, zero, suc, ◌+◌, ◌-◌, ◌≤◌, ◌<◌, min, ◌≡◌, refl, sym, ap, ap₂, ◌∙◌, ◌≢◌, Bool, false, Option,
  none, some, List, arith, lt→ltb, le→leb, lt→leb, eq→==, lt→==, gt→==, ne→==, usize_mod, length,
  take, drop, drop-take, drop-drop, take-take, length-between, Result, ok, err, panic,
}
use byst.Buf.Fill.{assume_init, take-assume_init, drop-assume_init}
use byst.Arc.Ref
use byst.Arc.Ref.{Memory, BufferRef, zero_sized, uninitialized, clone}
use byst.Arc.Shared
use byst.Arc.Shared.Cursor.{heap_ref, shrink-part, shrink-none}
use byst.Arc.Count.{increment}
use byst.Arc.Mutable.{ArcBufMut, filled, split_at, freeze, IndexOutOfBounds}

abbrev pub heap_mut : ℕ → ℕ → Bool → ℕ → ArcBufMut
heap_mut start end tail filled = record { inner = heap_ref start end tail; filled = filled }

-- The bytes that are filled lie in the reference, and the reference in the allocation.
abbrev pub IsFilled : Memory → ℕ → ℕ → ℕ → Type 0
IsFilled m start end filled =
    (filled ≤ end - start) × (start ≤ end) × (end ≤ length m.buf) × (end < usize_mod)

-- what is filled of the reference to `start..`
abbrev pub filled_bytes : Memory → ℕ → ℕ → List ℕ
filled_bytes m start n = assume_init (take n (drop start m.buf))

pub filled_lem :
    (m : Memory) (s e f : ℕ) (t : Bool)
    → IsFilled m s e f
    → filled m (heap_mut s e t f) ≡ some (filled_bytes m s f)
unfolding filled uninitialized
filled_lem m s e f t (h, k, l, u) =
    rw (length-between s e m.buf l, le→leb f (e - s) h, take-take f (e - s) (drop s m.buf))
      (ap (λ k. some (assume_init (take k (drop s m.buf)))) {x = min f (e - s)} (omega arith))

inner-split :
    (m : Memory) (s e at : ℕ) (t : Bool)
    → e < usize_mod
    → at + s ≤ e
    → at < e
    → at ≢ s
    → Ref.split_at at m (heap_ref s e t)
      ≡ some
          (heap_ref s (at + s) false, record m { word = increment m.word }, heap_ref (at + s) e t)
unfolding Ref.split_at clone
inner-split m s e at t h k l n =
    rw (lt→ltb (at + s) usize_mod (omega arith), le→leb (at + s) e k, ne→== at s n, lt→== at e l)
      refl

-- The halves of the bytes that are filled.
pub Halves : ℕ → List ℕ → Result IndexOutOfBounds (ArcBufMut × Memory × ArcBufMut) → Type 0
Halves at bs (ok (left, m, right)) =
    (filled m left ≡ some (take at bs)) × (filled m right ≡ some (drop at bs))
Halves at bs (err _) = ⊥
Halves at bs panic = ⊥

pub drop-filled :
    (m : Memory) (s f at : ℕ) → drop at (filled_bytes m s f) ≡ filled_bytes m (at + s) (f - at)
drop-filled m s f at =
    sym (drop-assume_init at (take f (drop s m.buf)))
    ∙ ap assume_init (drop-take at f (drop s m.buf) ∙ ap (take (f - at)) (drop-drop at s m.buf))
    ∙ ap (λ k. filled_bytes m k (f - at)) {x = s + at} (omega arith)

pub take-filled :
    (m : Memory) (s f at : ℕ) → at ≤ f → take at (filled_bytes m s f) ≡ filled_bytes m s at
take-filled m s f at h =
    sym (take-assume_init at (take f (drop s m.buf)))
    ∙ ap assume_init (take-take at f (drop s m.buf))
    ∙ ap (λ k. assume_init (take k (drop s m.buf))) {x = min at f} (omega arith)

pub split-inside :
    (m : Memory) (s e f at : ℕ) (t : Bool)
    → IsFilled m s e f
    → 0 < at
    → at < f
    → at ≢ s
    → split_at at m (heap_mut s e t f)
      ≡ ok (
        heap_mut s (at + s) false at,
        record m { word = increment m.word },
        heap_mut (at + s) e t (f - at),
      )
unfolding split_at
split-inside m s e f at t (h, k, l, u) p q n =
    rw
      (
        gt→== at 0 p,
        lt→== at f q,
        lt→ltb at f q,
        inner-split m s e at t u (omega arith) (omega arith) n,
      )
      refl

-- Splitting an `ArcBufMut` of the allocation, at a position that is not 0, lies inside the bytes
-- that are filled and differs from the position at which its reference starts, succeeds: the
-- half that is returned has the filled bytes before the position, and the buffer keeps those
-- from it on.
pub split_at_lem :
    (m : Memory) (s e f at : ℕ) (t : Bool)
    → IsFilled m s e f
    → 0 < at
    → at < f
    → at ≢ s
    → Halves at (filled_bytes m s f) (split_at at m (heap_mut s e t f))
unfolding Halves
split_at_lem m s e f at t (h, k, l, u) p q n =
    let m' : Memory = record m { word = increment m.word } in
    rw (split-inside m s e f at t (h, k, l, u) p q n) (
      filled_lem m' s (at + s) at false (omega arith, omega arith, omega arith, omega arith)
          ∙ ap some (sym (take-filled m s f at (omega arith))),
      filled_lem m' (at + s) e (f - at) t (omega arith, omega arith, l, u)
          ∙ ap some (sym (drop-filled m s f at)),
    )

inner-split-at_start :
    (m : Memory) (s e : ℕ) (t : Bool)
    → s + s ≤ e
    → e < usize_mod
    → Ref.split_at s m (heap_ref s e t) ≡ some (zero_sized, m, heap_ref s e t)
unfolding Ref.split_at
inner-split-at_start m s e t h u =
    rw (lt→ltb (s + s) usize_mod (omega arith), le→leb (s + s) e h, eq→== s s refl) refl

-- Splitting an `ArcBufMut` of the allocation at the position at which its reference starts,
-- which is not 0 and lies inside the bytes that are filled, returns a zero-sized buffer that
-- counts that many bytes as filled, so that reading it panics; and the buffer keeps its first
-- bytes, as many fewer as were to be split off.
pub split_at-start :
    (m : Memory) (s e f : ℕ) (t : Bool)
    → IsFilled m s e f
    → 0 < s
    → s < f
    → (split_at s m (heap_mut s e t f)
        ≡ ok (record { inner = zero_sized; filled = s }, m, heap_mut s e t (f - s)))
      × (filled m (record { inner = zero_sized; filled = s }) ≡ none)
      × (filled m (heap_mut s e t (f - s)) ≡ some (take (f - s) (filled_bytes m s f)))
unfolding split_at filled uninitialized
split_at-start m s e f t (h, k, l, u) p q = (
  rw (gt→== s 0 p, lt→== s f q, lt→ltb s f q, inner-split-at_start m s e t (omega arith) u) refl,
  rw (lt→leb s 0 p) refl,
  filled_lem m s e (f - s) t (omega arith, k, l, u)
      ∙ ap some (sym (take-filled m s f (f - s) (omega arith))),
)

-- The buffer that `freeze` leaves, as the bytes that it reads.
pub Freezes : List ℕ → Option (Memory × BufferRef) → Type 0
Freezes bs none = ⊥
Freezes bs (some b) = Shared.bytes b ≡ bs

-- Freezing an `ArcBufMut` of the allocation that is counted gives an `ArcBuf` of exactly the
-- bytes that are filled, also if there are none.
pub freeze_lem :
    (m : Memory) (s e f : ℕ) (t : Bool)
    → IsFilled m s e f
    → 2 ≤ m.word
    → Freezes (filled_bytes m s f) (freeze m (heap_mut s e t f))
unfolding Freezes freeze Shared.bytes uninitialized
freeze_lem m s e zero t (h, k, l, u) w = rw (shrink-none m s e 0 t u (omega arith) w) refl
freeze_lem m s e (suc f) t (h, k, l, u) w =
    rw (shrink-part m s e 0 (suc f) t u (omega arith) (omega arith)) (
      ap₂ (λ a b. assume_init (take a (drop b m.buf))) {x = s + suc f - (s + 0)} {y = suc f}
        {u = s + 0} {v = s} (omega arith) (omega arith))
