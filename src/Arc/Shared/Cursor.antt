-- ===== src/Arc/Shared/Cursor.antt =====
-- An `ArcBuf` read as a `BufReader`.
use byst.Prelude.{
  ℕ, zero, suc, ◌+◌, ◌-◌, ◌≤◌, ◌<◌, ◌≡◌, refl, sym, ap, ap₂, ◌∙◌, subst, inl, inr, Bool, true,
  false, ◌||◌, some, List, [], arith, ◌==◌, lt→ltb, le→leb, lt→leb, eq→==, lt→==, gt→==, le-or-lt,
  usize_mod, length, take, drop, drop-take, length-take, length-drop, drop_all, take_all, drop-drop,
  between, ret, fail,
}
use byst.Io.Interface.{end_at}
use byst.Io.Laws.{Peeks, IsCursor, IsCursorOf}
use byst.Buf.Fill.{assume_init, IsInit, length-assume_init, drop-assume_init, IsInit-drop}
use byst.Arc.Count.{decrement}
use byst.Arc.Ref.{Memory, BufferRef, zero_sized, uninitialized, drop_ref, shrink}
use byst.Arc.Shared.{ArcBuf, bytes, peek_chunk, advance, arc_reader}

-- a reference into the allocation
abbrev pub heap_ref : ℕ → ℕ → Bool → BufferRef
heap_ref start end tail = record { heap = true; start = start; end = end; tail = tail }

-- `shrink` within the reference, to a part that is not empty
pub shrink-part :
    (m : Memory) (s e a b : ℕ) (t : Bool)
    → e < usize_mod
    → s + b ≤ e
    → a < b
    → shrink a b m (heap_ref s e t) ≡ some (m, heap_ref (s + a) (s + b) t)
unfolding shrink
shrink-part m s e a b t h k l =
    rw
      (
        lt→ltb (s + a) usize_mod (omega arith),
        lt→ltb (s + b) usize_mod (omega arith),
        le→leb s (s + a) (omega arith),
        le→leb (s + b) e k,
        le→leb (s + a) (s + b) (omega arith),
        lt→== (s + a) (s + b) (omega arith),
      )
      refl

pub drop_ref-held :
    (m : Memory) (r : BufferRef)
    → r.heap ≡ true
    → 2 ≤ m.word
    → drop_ref m r
      ≡ some (record m { word = (decrement m.word).1; freed = m.freed || (m.word == 2) })
unfolding drop_ref decrement
drop_ref-held m r e h = rw (e, le→leb 2 m.word h) refl

-- `shrink` to nothing, which drops the reference
pub shrink-none :
    (m : Memory) (s e a : ℕ) (t : Bool)
    → e < usize_mod
    → s + a ≤ e
    → 2 ≤ m.word
    → shrink a a m (heap_ref s e t)
      ≡ some
          (record m { word = (decrement m.word).1; freed = m.freed || (m.word == 2) }, zero_sized)
unfolding shrink
shrink-none m s e a t h k l =
    rw
      (
        lt→ltb (s + a) usize_mod (omega arith),
        le→leb s (s + a) (omega arith),
        le→leb (s + a) e k,
        le→leb (s + a) (s + a) (omega arith),
        eq→== (s + a) (s + a) refl,
        drop_ref-held m (heap_ref s e t) refl l,
      )
      refl

-- A reference that reads is to initialised bytes of the allocation, which is counted; to none of them
-- it is the zero-sized one.
abbrev pub IsRange : Memory → Bool → ℕ → ℕ → Type 0
IsRange m false s e = (s ≡ 0) × (e ≡ 0)
IsRange m true s e =
    (s < e) × (e ≤ length m.buf) × (e < usize_mod) × (2 ≤ m.word) × IsInit (between s e m.buf)

abbrev pub IsShared : ArcBuf → Type 0
IsShared (m, r) = IsRange m r.heap r.start r.end

length-bytes :
    (m : Memory) (h : Bool) (s e : ℕ) (t : Bool)
    → IsRange m h s e
    → length (bytes (m, record { heap = h; start = s; end = e; tail = t })) ≡ e - s
unfolding bytes uninitialized
length-bytes m false s e t (h, k) = omega arith
length-bytes m true s e t (h, k, l, _, _) =
    length-assume_init (between s e m.buf)
    ∙ omega (arith, length-take (e - s) (drop s m.buf), length-drop s m.buf)

drop-between :
    {A : Type 0}
    → (s e n : ℕ) (xs : List A) → drop n (between s e xs) ≡ between (s + n) (s + (e - s)) xs
drop-between s e n xs =
    drop-take n (e - s) (drop s xs)
    ∙ ap₂ take {x = e - s - n} {y = s + (e - s) - (s + n)} (omega arith) (drop-drop n s xs)

-- A step over the first bytes leaves the others, and the zero-sized reference once none is left.
Advances : ℕ → ArcBuf → Type 0
Advances n b =
    (b' : ArcBuf) × (advance n b ≡ ret tt b') × IsShared b' × (bytes b' ≡ drop n (bytes b))

bytes-part :
    (m : Memory) (s e n : ℕ) (t : Bool)
    → bytes (m, heap_ref (s + n) (s + (e - s)) t) ≡ drop n (bytes (m, heap_ref s e t))
unfolding bytes uninitialized
bytes-part m s e n t =
    ap assume_init (sym (drop-between s e n m.buf)) ∙ drop-assume_init n (between s e m.buf)

le-antisym : (a b : ℕ) → a ≤ b → b ≤ a → a ≡ b
le-antisym a b h k = omega arith

bytes-zero_sized : (m : Memory) → bytes (m, zero_sized) ≡ []
unfolding bytes uninitialized
bytes-zero_sized m = refl

advance-heap :
    (m : Memory) (s e n : ℕ) (t : Bool)
    → IsRange m true s e
    → n ≤ e - s
    → Advances n (m, heap_ref s e t)
unfolding Advances advance
advance-heap m s e n t (h, k, l, w, i) le = elim (le-or-lt (e - s) n) [
  | inl q ↦ (
    (record m { word = (decrement m.word).1; freed = m.freed || (m.word == 2) }, zero_sized),
    rw
        (
          le→leb n (e - s) le,
          le-antisym n (e - s) le q,
          shrink-none m s e (e - s) t l (omega arith) w,
        )
        refl,
    (refl, refl),
    bytes-zero_sized _
        ∙ sym (
            drop_all n (bytes (m, heap_ref s e t))
              (omega (arith, length-bytes m true s e t (h, k, l, w, i)))),
  )
  | inr q ↦ (
    (m, heap_ref (s + n) (s + (e - s)) t),
    rw (le→leb n (e - s) le, shrink-part m s e n (e - s) t l (omega arith) q) refl,
    (
      omega arith,
      omega arith,
      omega arith,
      w,
      subst IsInit (drop-between s e n m.buf) (IsInit-drop n (between s e m.buf) i),
    ),
    bytes-part m s e n t,
  )
]

advance-empty :
    (m : Memory) (n : ℕ) (t : Bool)
    → n ≤ 0
    → Advances n (m, record { heap = false; start = 0; end = 0; tail = t })
unfolding Advances advance shrink drop_ref bytes uninitialized
advance-empty m zero t h = ((m, zero_sized), refl, (refl, refl), refl)
advance-empty m (suc n) t h = absurd (omega arith)

advance-range :
    (m : Memory) (h : Bool) (s e n : ℕ) (t : Bool)
    → IsRange m h s e
    → n ≤ e - s
    → Advances n (m, record { heap = h; start = s; end = e; tail = t })
advance-range m true s e n t v k = advance-heap m s e n t v k
advance-range m false s e n t (p, q) k = rw (p, q) (advance-empty m n t (omega arith))

peek-range :
    (m : Memory) (h : Bool) (s e : ℕ) (t : Bool)
    → IsRange m h s e
    → Peeks
        (peek_chunk (m, record { heap = h; start = s; end = e; tail = t }))
        (bytes (m, record { heap = h; start = s; end = e; tail = t }))
unfolding peek_chunk bytes uninitialized
peek-range m false s e t (p, q) = rw (p, q) refl
peek-range m true s e t v =
    let l = length-bytes m true s e t v in
    rw (gt→== (e - s) 0 (omega (arith, v.0))) (
      omega (arith, l, v.0),
      sym (take_all _ (bytes (m, heap_ref s e t)) (omega arith)),
      omega arith,
    )

advance-ends :
    (m : Memory) (h : Bool) (s e n : ℕ) (t : Bool)
    → IsRange m h s e
    → length (bytes (m, record { heap = h; start = s; end = e; tail = t })) < n
    → advance n (m, record { heap = h; start = s; end = e; tail = t })
      ≡ fail
          (end_at n (length (bytes (m, record { heap = h; start = s; end = e; tail = t }))))
          (m, record { heap = h; start = s; end = e; tail = t })
unfolding advance
advance-ends m h s e n t v k =
    rw (length-bytes m h s e t v)
      (rw (lt→leb n (e - s) (omega (arith, length-bytes m h s e t v, k))) refl)

-- the laws, on the references that share initialised memory
unfoldable arc_cursor : IsCursor arc_reader
unfolding arc_reader Advances
arc_cursor = record {
  valid = IsShared;
  contents = bytes;
  peeks = λ (m, r) v. peek-range m r.heap r.start r.end r.tail v;
  advances = λ n (m, r) v k.
      advance-range m r.heap r.start r.end n r.tail v
        (omega (arith, k, length-bytes m r.heap r.start r.end r.tail v));
  ends = λ n (m, r) v k. advance-ends m r.heap r.start r.end n r.tail v k;
  remains = λ (m, r) v. sym (length-bytes m r.heap r.start r.end r.tail v);
}

-- An `ArcBuf` keeps the contract of the readers for its position, with its bytes as what is
-- left, on all states where it is zero-sized, or a nonempty range of the allocation that is
-- initialised and counted: its chunk is a front of its bytes, a step over some of them leaves
-- the others, and a step beyond them is an error that changes nothing.
pub arc_reader-IsCursorOf : IsCursorOf arc_reader IsShared bytes
unfolding arc_cursor
arc_reader-IsCursorOf = (arc_cursor, refl, refl)
