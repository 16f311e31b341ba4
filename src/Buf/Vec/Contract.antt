-- ===== src/Buf/Vec/Contract.antt =====
-- `VecWriter` of byst/src/buf/mod.rs, beside the contract of `BufWriter`.
use byst.Prelude.{
  ℕ, ◌+◌, ◌-◌, ◌≤◌, ◌<◌, min, max, ◌≡◌, refl, sym, ap, ap₂, ◌∙◌, ◌⊎◌, inl, inr, Bool, true, false,
  List, ◌++◌, append_assoc, arith, ltb, ltb→lt, lt→ltb, le→ltb, le→leb, le-or-lt, usize_mod, length,
  take, drop, replicate, length-append, take-add, length-take, length-drop, length-replicate,
  drop_all, take_all, drop-drop, take-append_le, drop-append_le, overlay, overlay_at,
  length-overlay_at, take-overlay_at, drop-overlay_at, overlay-extend, take-overlay_at_end,
  drop-overlay_at_end, take-pad, drop-pad, ret, fail, abort,
}
use byst.Io.Interface.{Full}
use byst.Io.Laws.{Peeks, IsBufWriter}
use byst.Buf.Vec.{VecWriter, vec_writer, peek_chunk_mut, store, advance, extend}

-- The cursor is within the vector, which is no larger than a slice can be.
pub record IsSound (w : VecWriter) : Type 0 where
  pub within : w.position ≤ length w.vec
  pub small : length w.vec < usize_mod

abbrev pub before : VecWriter → List ℕ
before w = take w.position w.vec

abbrev pub after : VecWriter → List ℕ
after w = drop w.position w.vec

abbrev pub fits : VecWriter → ℕ → Bool
fits w n = ltb (w.position + n) usize_mod

pub vec-peeks : (w : VecWriter) → IsSound w → Peeks (peek_chunk_mut w) (after w)
unfolding peek_chunk_mut
vec-peeks w v = elim (le-or-lt (length w.vec) w.position) [
  | inr h ↦ rw (lt→ltb _ _ h) (
    omega (arith, length-drop w.position w.vec),
    sym (take_all _ (after w) (omega arith)),
    omega arith,
  )
  | inl h ↦ rw (le→ltb _ _ h) (drop_all w.position w.vec h)
]

pub vec-stores :
    (xs : List ℕ) (w : VecWriter)
    → IsSound w
    → length xs ≤ length (after w)
    → IsSound (store xs w)
      × (before (store xs w) ≡ before w)
      × (after (store xs w) ≡ overlay xs (after w))
      × ((n : ℕ) → fits (store xs w) n ≡ fits w n)
unfolding store
vec-stores xs w v h =
    let l : length (overlay_at w.position xs w.vec) ≡ length w.vec =
      length-overlay_at w.position xs w.vec
        (omega (arith, length-drop w.position w.vec, v.within)) in
    (
      record { within = omega (arith, l, v.within); small = omega (arith, l, v.small) },
      take-overlay_at w.position xs w.vec v.within,
      drop-overlay_at w.position xs w.vec v.within,
      λ n. refl,
    )

-- What `extend` leaves is the bytes put over those after the cursor, and appended.
vec-extend :
    (xs : List ℕ) (w : VecWriter)
    → IsSound w
    → overlay_at w.position (take (min (length w.vec - w.position) (length xs)) xs) w.vec
        ++ drop (min (length w.vec - w.position) (length xs)) xs
      ≡ overlay_at w.position xs w.vec
vec-extend xs w v =
    append_assoc (before w) _ _
    ∙ ap (before w ++◌)
        (overlay-extend _ xs (after w) (omega (arith, length-drop w.position w.vec)))

pub vec-extends :
    (xs : List ℕ) (w : VecWriter)
    → IsSound w
    → fits w (length xs) ≡ true
    → (w' : VecWriter) × (extend xs w ≡ ret tt w')
      × IsSound w'
      × (before w' ≡ before w ++ xs)
      × (after w' ≡ drop (length xs) (after w))
      × ((m : ℕ) → fits w' m ≡ fits w (length xs + m))
unfolding extend
vec-extends xs w v h =
    let l : length (overlay_at w.position xs w.vec) ≡ max (length w.vec) (w.position + length xs) =
      omega (
        arith,
        length-append (before w) (overlay xs (after w)),
        length-append xs (drop (length xs) (after w)),
        length-take w.position w.vec,
        length-drop w.position w.vec,
        length-drop (length xs) (after w),
        v.within,
      ) in
    (
      record { vec = overlay_at w.position xs w.vec; position = w.position + length xs },
      rw (le→leb _ _ v.within, h)
          (ap (λ b. ret tt (record { vec = b; position = w.position + length xs }))
            (vec-extend xs w v)),
      record { within = omega (arith, l); small = omega (arith, l, v.small, ltb→lt _ _ h) },
      take-overlay_at_end w.position (length xs) xs w.vec v.within refl,
      drop-overlay_at_end w.position (length xs) xs w.vec v.within refl,
      λ m.
          ap (λ k. ltb k usize_mod) {x = w.position + length xs + m}
            {y = w.position + (length xs + m)} (omega arith),
    )

-- The vector padded up to `by` bytes behind the cursor.
advanced-drop :
    (by : ℕ) (w : VecWriter)
    → IsSound w
    → drop w.position (w.vec ++ replicate (w.position + by - length w.vec) 0)
      ≡ after w ++ replicate (by - length (after w)) 0
advanced-drop by w v =
    drop-append_le w.position w.vec _ v.within
    ∙ ap (λ k. after w ++ replicate k 0) {x = w.position + by - length w.vec}
        (omega (arith, length-drop w.position w.vec, v.within))

advanced-before :
    (by : ℕ) (w : VecWriter)
    → IsSound w
    → take (w.position + by) (w.vec ++ replicate (w.position + by - length w.vec) 0)
      ≡ before w ++ (take by (after w) ++ replicate (by - length (after w)) 0)
advanced-before by w v =
    sym (take-add w.position by _)
    ∙ ap₂ (λ xs ys. xs ++ take by ys) (take-append_le w.position w.vec _ v.within)
        (advanced-drop by w v)
    ∙ ap (before w ++◌) (take-pad by 0 (after w))

advanced-after :
    (by : ℕ) (w : VecWriter)
    → IsSound w
    → drop (w.position + by) (w.vec ++ replicate (w.position + by - length w.vec) 0)
      ≡ drop by (after w)
advanced-after by w v =
    sym (drop-drop by w.position _) ∙ ap (drop by) (advanced-drop by w v) ∙ drop-pad by 0 (after w)

pub vec-advances :
    (by : ℕ) (w : VecWriter)
    → IsSound w
    → fits w by ≡ true
    → (w' : VecWriter) × (advance by w ≡ ret tt w')
      × IsSound w'
      × (before w' ≡ before w ++ (take by (after w) ++ replicate (by - length (after w)) 0))
      × (after w' ≡ drop by (after w))
      × ((m : ℕ) → fits w' m ≡ fits w (by + m))
unfolding advance
vec-advances by w v h =
    let r = w.position + by - length w.vec in
    let l : length (w.vec ++ replicate r 0) ≡ length w.vec + r =
      length-append w.vec (replicate r 0) ∙ ap (λ k. length w.vec + k) (length-replicate r 0) in
    (
      record { vec = w.vec ++ replicate r 0; position = w.position + by },
      rw h,
      record { within = omega (arith, l); small = omega (arith, l, v.small, ltb→lt _ _ h) },
      advanced-before by w v,
      advanced-after by w v,
      λ m.
          ap (λ k. ltb k usize_mod) {x = w.position + by + m} {y = w.position + (by + m)}
            (omega arith),
    )

pub ltb_trans : (a n m : ℕ) → n ≤ m → ltb (a + m) usize_mod ≡ true → ltb (a + n) usize_mod ≡ true
ltb_trans a n m h e = ground arith

pub vec-holds : (n : ℕ) (w : VecWriter) → IsSound w → n ≤ length (after w) → fits w n ≡ true
vec-holds n w v h = lt→ltb _ _ (omega (arith, length-drop w.position w.vec, v.within, v.small))

pub vec-refuses :
    (xs : List ℕ) (w : VecWriter)
    → IsSound w
    → fits w (length xs) ≡ false
    → (extend xs w ≡ abort) ⊎ ((e : Full) × (extend xs w ≡ fail e w) × (e.written ≡ 0))
unfolding extend
vec-refuses xs w v h = inl (rw (le→leb _ _ v.within, h))

-- A vector's writer keeps the contract of a writer: it writes over the vector's bytes, then appends.
unfoldable pub vec_contract : IsBufWriter vec_writer
unfolding vec_writer
vec_contract = record {
  valid = IsSound;
  before = before;
  after = after;
  fits = fits;
  peeks = vec-peeks;
  stores = vec-stores;
  shrinks = λ n m w h e. ltb_trans w.position n m h e;
  holds = vec-holds;
  advances = vec-advances;
  extends = vec-extends;
  refuses = vec-refuses;
}
