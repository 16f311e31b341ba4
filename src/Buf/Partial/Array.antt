-- ===== src/Buf/Partial/Array.antt =====
-- byst/src/buf/array_buf.rs: an array of `N` bytes that is initially empty. Its other operations are
-- those of the `PartiallyInitialized` that it holds.
use byst.Prelude.{
  ℕ, ◌≤◌, max, ◌≡◌, sym, ap, ◌∙◌, subst, ◌↔◌, true, Option, none, some, List, map, arith, ◌==◌,
  if◌then◌else◌, length, take, replicate, length-replicate, take_all, overlay, length-overlay,
  take-front, Result, ok, err, ◌>>=◌,
}
use byst.Buf.{Full, BufMut}
use byst.Buf.Fill.{assume_init, IsInit, length-map, length-assume_init, assume_init-map, map-IsInit}
use byst.Buf.Partial.{
  PartiallyInitialized, new, assume_initialized, bytes, capacity, is_full, reserve, Writer, writer,
}
use byst.Buf.Partial.Valid.{IsValid, new-IsValid, length-bytes}

-- `BufMut` of a partially initialised buffer
unfoldable pub partial_buf_reserve : ℕ → PartiallyInitialized → Result Full PartiallyInitialized
unfolding reserve
partial_buf_reserve size p = reserve p size >>= λ _. ok p

abbrev pub partial_buf : BufMut PartiallyInitialized Writer
partial_buf = record { reserve = partial_buf_reserve; writer = writer; inner = λ w. w.inner }

-- `ArrayBuf::new`
unfoldable pub array_new : ℕ → PartiallyInitialized
unfolding new
array_new n = new (replicate n none)

-- `impl Clone for ArrayBuf`, which copies the initialised bytes alone
unfoldable pub array_clone : PartiallyInitialized → PartiallyInitialized
unfolding array_new assume_initialized bytes
array_clone a =
    let cloned = array_new (length a.buf) in
    let source = bytes a in
    assume_initialized (record cloned { buf = overlay (map some source) cloned.buf })
      (length source)

-- `struct NotFullyInitialized`
pub record NotFullyInitialized : Type 0 where
  pub initialized : ℕ
  pub buf_size : ℕ

-- `impl TryFrom<ArrayBuf<N>> for [u8; N]`
unfoldable pub try_from : PartiallyInitialized → Result NotFullyInitialized (List ℕ)
try_from a =
    if a.initialized == length a.buf
    then ok (assume_init a.buf)
    else err (record { initialized = a.initialized; buf_size = length a.buf })

pub array_new-IsValid : (n : ℕ) → IsValid (array_new n)
unfolding array_new
array_new-IsValid n = new-IsValid (replicate n none)

-- A clone of a valid `ArrayBuf` is valid, and has the bytes and the capacity of the original.
pub array_clone_lem :
    (a : PartiallyInitialized)
    → IsValid a
    → IsValid (array_clone a)
      × (bytes (array_clone a) ≡ bytes a)
      × (capacity (array_clone a) ≡ capacity a)
unfolding array_clone bytes
array_clone_lem a v =
    let xs = assume_init (take a.initialized a.buf) in
    let l : length (map some xs) ≤ length (replicate {A = Option ℕ} (length a.buf) none) = omega (
      arith,
      length-map xs,
      length-bytes v,
      v.in_buf,
      length-replicate {A = Option ℕ} (length a.buf) none,
    ) in
    let e : take (max 0 (length xs)) (overlay (map some xs) (replicate (length a.buf) none))
        ≡ map some xs =
      take-front _ (map some xs) _ (omega (arith, length-map xs)) in
    let k = length-overlay (map some xs) (replicate (length a.buf) none) l in
    (
      record {
        in_buf = omega (arith, k, l, length-map xs);
        front = subst IsInit (sym e) (map-IsInit xs);
      },
      ap assume_init e ∙ assume_init-map xs,
      k ∙ length-replicate (length a.buf) none,
    )

-- The conversion of a valid `ArrayBuf` into an array succeeds with some bytes exactly if the
-- buffer is full, they are its bytes, and they are as many as its capacity.
pub try_from_iff :
    (a : PartiallyInitialized) (xs : List ℕ)
    → IsValid a
    → (try_from a ≡ ok xs) ↔ ((is_full a ≡ true) × (xs ≡ bytes a) × (length xs ≡ capacity a))
unfolding try_from is_full bytes
try_from_iff a xs v =
    let full : a.initialized ≡ length a.buf
        → assume_init a.buf ≡ assume_init (take a.initialized a.buf) =
      λ e. ap assume_init (sym (take_all a.initialized a.buf (omega arith))) in
    (λ h. ground (arith, full, length-assume_init a.buf), λ h. ground (arith, full))
