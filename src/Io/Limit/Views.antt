-- ===== src/Io/Limit/Views.antt =====
-- The views of a limited reader, and what a refused one does to the limit.
use byst.Prelude.{
  ℕ, ◌-◌, ◌≤◌, ◌<◌, min, ◌≡◌, refl, sym, ap, ◌∙◌, inl, inr, some, List, [], arith, le→ltb, le→leb,
  le-or-lt, length, take, drop, drop-take, take_all, take_nil, take-take, ok, err, ret, fail,
}
use byst.Io.Interface.{end_at, BufReader}
use byst.Io.Laws.{IsBufReader}
use byst.Io.Slice.{slice_reader, slice_seek}
use byst.Io.Limit.{
  Limit, limited, limit_view, limit_peek_view, limit_rest, limit_peek_rest, limit_seek,
}
use byst.Io.Limit.Cursor.{limit_contents, length-limit_contents}

module _ {S V : Type 0} {r : BufReader S V} (c : IsBufReader r) where
  open c use {valid, contents, bytes}

  -- A view of as many bytes as a limited reader has, or fewer, over an inner reader that keeps
  -- its contract, shows the first of them, as `peek_view` does, and leaves the others.
  pub limit-views :
      (n : ℕ) (l : Limit S)
      → valid l.inner
      → n ≤ length (limit_contents c.cursor l)
      → (v : V) × (l' : Limit S) × (limit_view r n l ≡ ret v l')
        × (limit_peek_view r n l ≡ ok v)
        × valid l'.inner
        × (bytes v ≡ take n (limit_contents c.cursor l))
        × (limit_contents c.cursor l' ≡ drop n (limit_contents c.cursor l))
  unfolding limit_view limit_peek_view
  limit-views n l u h =
      let k : n ≤ l.limit = omega (arith, length-limit_contents c.cursor l) in
      let (v, s', e, e', u', b, d) =
        c.views n l.inner u (omega (arith, length-limit_contents c.cursor l)) in
      (
        v,
        limited s' (l.limit - n),
        rw (le→ltb _ _ k, e) refl,
        rw (le→ltb _ _ k) e',
        u',
        b
            ∙ ap (λ m. take m (contents l.inner)) {y = min n l.limit} (omega arith)
            ∙ sym (take-take n l.limit (contents l.inner)),
        ap (take (l.limit - n)) d ∙ sym (drop-take n l.limit (contents l.inner)),
      )

  -- The rest of a limited reader is all that it has left, and leaves it at its end.
  pub limit-rests :
      (l : Limit S)
      → valid l.inner
      → (v : V) × (l' : Limit S) × (limit_rest r l ≡ some (v, l'))
        × (limit_peek_rest r l ≡ some v)
        × valid l'.inner
        × (bytes v ≡ limit_contents c.cursor l)
        × (limit_contents c.cursor l' ≡ [])
  unfolding limit_rest limit_peek_rest
  limit-rests l u = elim (le-or-lt l.limit (length (contents l.inner))) [
    | inl h ↦
        let (v, s', e, e', u', b, d) = c.views l.limit l.inner u h in
        (v, limited s' 0, rw (e, limit_rest) refl, rw (e', limit_peek_rest) refl, u', b, refl)
    | inr h ↦
        let (e, e') = c.view_ends l.limit l.inner u h in
        let (v, s', q, q', u', b, d) = c.rests l.inner u in
        (
          v,
          limited s' l.limit,
          rw (e, q, limit_rest) refl,
          rw (e', q', limit_peek_rest) refl,
          u',
          b ∙ sym (take_all l.limit (contents l.inner) (omega arith)),
          ap (take l.limit) d ∙ take_nil l.limit,
        )
  ]

  -- A view within the limit of more bytes than the inner reader has, which keeps its contract,
  -- is an error with nothing read, and takes its length off the limit; `peek_view` gives the
  -- same error.
  pub limit_view-refused :
      (n : ℕ) (l : Limit S)
      → valid l.inner
      → n ≤ l.limit
      → length (contents l.inner) < n
      → (limit_view r n l
          ≡ fail (end_at n (length (contents l.inner))) (limited l.inner (l.limit - n)))
        × (limit_peek_view r n l ≡ err (end_at n (length (contents l.inner))))
  unfolding limit_view limit_peek_view
  limit_view-refused n l u k h =
      let (e, e') = c.view_ends n l.inner u h in (rw (le→ltb _ _ k, e) refl, rw (le→ltb _ _ k) e')

-- Over a slice, seeking back to the position told before a view within the limit restores the
-- slice, but not the limit, which stays reduced by the length of the view.
pub limit_seek_after_view :
    (n : ℕ) (l : Limit (List ℕ))
    → n ≤ l.limit
    → n ≤ length l.inner
    → (l' : Limit (List ℕ)) × (limit_view slice_reader n l ≡ ret (take n l.inner) l')
      × (((limit_seek slice_seek).seek ((limit_seek slice_seek).tell l) l').1
          ≡ limited l.inner (l.limit - n))
unfolding limit_seek slice_seek limit_view slice_reader
limit_seek_after_view n l h k =
    (limited (drop n l.inner) (l.limit - n), rw (le→ltb _ _ h, le→leb _ _ k) refl, refl)
