-- ===== src/Buf/Partial/Writes.antt =====
-- The writer of a partially initialised buffer: its invariant, and what storing and filling leave of
-- it.
use byst.Prelude.{
  ℕ, ◌+◌, ◌-◌, ◌≤◌, ◌<◌, ◌≡◌, refl, sym, ap, ap₂, ◌∙◌, inl, inr, Bool, true, false, Option, some,
  List, ◌++◌, map, arith, ltb, leb, ltb→lt, lt→ltb, leb→le, Bool-cases, usize_mod, length, take,
  drop, length-drop, drop_all, take_all, overlay, overlay_at, length-overlay_at, take-overlay_at,
  drop-overlay_at, take-overlay_at_end, drop-overlay_at_end, ret, map_fail,
}
use byst.Io.Laws.{Peeks}
use byst.Buf.{to_io_full}
use byst.Buf.Fill.{length-map}
use byst.Buf.Partial.{
  assume_initialized, bytes, Writer, filled, fill_with, peek_chunk_mut, store, extend,
}
use byst.Buf.Partial.Valid.{
  IsValid, length-bytes, filled-IsValid, bytes-filled, stored-IsValid, bytes-stored,
}

-- The cursor is within the bytes, and the memory is no larger than a slice can be.
pub record IsSound (w : Writer) : Type 0 where
  pub inner : IsValid w.inner
  pub within : w.position ≤ w.inner.initialized
  pub small : length w.inner.buf < usize_mod

abbrev pub before : Writer → List ℕ
before w = take w.position (bytes w.inner)

abbrev pub after : Writer → List ℕ
after w = drop w.position (bytes w.inner)

abbrev pub fits : Writer → ℕ → Bool
fits w n = leb (w.position + n) (length w.inner.buf)

pub length-after : {w : Writer} → IsSound w → length (after w) ≡ w.inner.initialized - w.position
length-after {w} v = omega (arith, length-drop w.position (bytes w.inner), length-bytes v.inner)

pub ltb-false : (a b : ℕ) → ltb a b ≡ false → b ≤ a
ltb-false a b h = ground arith

pub chunk_of : (n : ℕ) (xs : List ℕ) → n < length xs → Peeks (some (drop n xs)) (drop n xs)
chunk_of n xs h =
    (omega (arith, length-drop n xs), sym (take_all _ (drop n xs) (omega arith)), omega arith)

pub partial-peeks : (w : Writer) → IsSound w → Peeks (peek_chunk_mut w) (after w)
unfolding peek_chunk_mut
partial-peeks w v = elim (Bool-cases (ltb w.position w.inner.initialized)) [
  | inl e ↦
      rw e (chunk_of w.position (bytes w.inner) (omega (arith, length-bytes v.inner, ltb→lt _ _ e)))
  | inr e ↦
      rw e
        (drop_all w.position (bytes w.inner) (omega (arith, length-bytes v.inner, ltb-false _ _ e)))
]

pub partial-stores :
    (xs : List ℕ) (w : Writer)
    → IsSound w
    → length xs ≤ length (after w)
    → IsSound (store xs w)
      × (before (store xs w) ≡ before w)
      × (after (store xs w) ≡ overlay xs (after w))
      × ((n : ℕ) → fits (store xs w) n ≡ fits w n)
unfolding store
partial-stores xs w v h =
    let k : w.position + length xs ≤ w.inner.initialized =
      omega (arith, length-after v, v.within) in
    let l : length (overlay_at w.position (map some xs) w.inner.buf) ≡ length w.inner.buf =
      length-overlay_at w.position (map some xs) w.inner.buf
        (omega (arith, length-map xs, v.inner.in_buf)) in
    let b = bytes-stored w.position xs v.inner k in
    (
      record {
        inner = stored-IsValid w.position xs v.inner k;
        within = v.within;
        small = rw l v.small;
      },
      ap (take w.position) b
          ∙ take-overlay_at w.position xs (bytes w.inner) (omega (arith, length-bytes v.inner)),
      ap (drop w.position) b
          ∙ drop-overlay_at w.position xs (bytes w.inner) (omega (arith, length-bytes v.inner)),
      λ n. ap (leb (w.position + n)) l,
    )

-- What `fill_with` leaves, if the bytes that it puts down are those of `xs`.
module _ (len : ℕ) (xs : List ℕ) (f : List (Option ℕ) → List (Option ℕ)) (w : Writer)
    (v : IsSound w)
    (fills : f (take (w.position + len - w.position) (drop w.position w.inner.buf)) ≡ map some xs)
    (e : length xs ≡ len) (h : fits w len ≡ true) where
  abbrev pub end : ℕ
  end = w.position + len

  abbrev pub out : Writer
  out = record { inner = filled w.inner w.position end f; position = end }

  pub fill_with-out : fill_with len f w ≡ ret tt out
  unfolding fill_with
  fill_with-out = rw (lt→ltb end usize_mod (omega (arith, leb→le _ _ h, v.small)), h)

  pub bytes-out : bytes out.inner ≡ overlay_at w.position xs (bytes w.inner)
  bytes-out =
      bytes-filled w.position end xs f v.inner fills (omega (arith, e)) v.within (leb→le _ _ h)

  pub out-inner : IsValid out.inner
  out-inner =
      filled-IsValid w.position end xs f v.inner fills (omega (arith, e)) v.within (leb→le _ _ h)

  pub length-out : length out.inner.buf ≡ length w.inner.buf
  unfolding filled
  length-out = rw fills (
      length-overlay_at w.position (map some xs) w.inner.buf
        (omega (arith, length-map xs, e, leb→le _ _ h)))

  pub within-out : end ≤ out.inner.initialized
  unfolding filled assume_initialized
  within-out = omega arith

  pub out-IsSound : IsSound out
  out-IsSound = record {
    inner = out-inner;
    within = within-out;
    small = omega (arith, length-out, v.small);
  }

  pub le-bytes : w.position ≤ length (bytes w.inner)
  le-bytes = omega (arith, length-bytes v.inner, v.within)

  pub out-before : before out ≡ before w ++ xs
  out-before =
      ap (take end) bytes-out ∙ take-overlay_at_end w.position len xs (bytes w.inner) le-bytes e

  pub out-after : after out ≡ drop len (after w)
  out-after =
      ap (drop end) bytes-out ∙ drop-overlay_at_end w.position len xs (bytes w.inner) le-bytes e

  pub out-fits : (m : ℕ) → fits out m ≡ fits w (len + m)
  out-fits m = ap₂ leb {x = end + m} {y = w.position + (len + m)} (omega arith) length-out

pub partial-extends :
    (xs : List ℕ) (w : Writer)
    → IsSound w
    → fits w (length xs) ≡ true
    → (w' : Writer) × (extend xs w ≡ ret tt w')
      × IsSound w'
      × (before w' ≡ before w ++ xs)
      × (after w' ≡ drop (length xs) (after w))
      × ((m : ℕ) → fits w' m ≡ fits w (length xs + m))
unfolding extend
partial-extends xs w v h =
    let f : List (Option ℕ) → List (Option ℕ) = λ _. map some xs in
    (
      out (length xs) xs f w v refl refl h,
      ap (map_fail to_io_full) (fill_with-out (length xs) xs f w v refl refl h),
      out-IsSound (length xs) xs f w v refl refl h,
      out-before (length xs) xs f w v refl refl h,
      out-after (length xs) xs f w v refl refl h,
      out-fits (length xs) xs f w v refl refl h,
    )
