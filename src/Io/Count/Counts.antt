-- ===== src/Io/Count/Counts.antt =====
-- The count of byst/src/io/count.rs, over an inner reader that keeps its contract.
use byst.Prelude.{
  lt→ltb, usize_mod, ℕ, ◌+◌, ◌≤◌, ◌<◌, ◌≡◌, refl, ap, some, [], arith, length, take, length-take,
  length-drop, ret, fail,
}
use byst.Io.Interface.{end_at, BufReader}
use byst.Io.Laws.{IsBufReader}
use byst.Io.Count.{Count, counted, count_view, count_rest, count_advance}

module _ {S V : Type 0} {r : BufReader S V} (c : IsBufReader r) where
  open c use {valid, contents, bytes}

  -- what there was is what was counted and what is left
  abbrev pub Balances : Count S → Count S → Type 0
  Balances a b = b.count + length (contents b.inner) ≡ a.count + length (contents a.inner)

  -- Over an inner reader that keeps its contract, a step of `Count` over bytes that are there
  -- and that the count has room for succeeds and adds their number to the count, so that the count and what is left balance; a
  -- step over more is an error that leaves reader and count as they were.
  pub count-advances :
      (n : ℕ) (a : Count S)
      → valid a.inner
      → (n ≤ length (contents a.inner)
          → a.count + n < usize_mod
          → (b : Count S) × (count_advance r n a ≡ ret tt b)
            × valid b.inner
            × (b.count ≡ a.count + n)
            × Balances a b)
        × (length (contents a.inner) < n
            → count_advance r n a ≡ fail (end_at n (length (contents a.inner))) a)
  unfolding count_advance
  count-advances n a v = (
    λ h k.
        let (s, e, v', d) = c.advances n a.inner v h in
        (
          counted s (a.count + n),
          rw (e, count_advance, lt→ltb (a.count + n) usize_mod k) refl,
          v',
          refl,
          omega (arith, ap length d, length-drop n (contents a.inner)),
        ),
    λ h. rw (c.ends n a.inner v h, count_advance) refl,
  )

  -- A view of `n` bytes that are there adds `n` to the count, and the rest adds all that is left,
  -- if the count has room for it.
  pub count-views :
      (n : ℕ) (a : Count S)
      → valid a.inner
      → n ≤ length (contents a.inner)
      → a.count + n < usize_mod
      → (v : V) × (b : Count S) × (count_view r n a ≡ ret v b)
        × valid b.inner
        × (bytes v ≡ take n (contents a.inner))
        × (b.count ≡ a.count + n)
        × Balances a b
  unfolding count_view
  count-views n a u h k =
      let (v, s, e, e', u', b, d) = c.views n a.inner u h in
      let l : r.view_len v ≡ n =
        omega (arith, c.len_lem v, ap length b, length-take n (contents a.inner)) in
      (
        v,
        counted s (a.count + r.view_len v),
        rw (e, count_view, lt→ltb (a.count + r.view_len v) usize_mod (omega (arith, l, k))) refl,
        u',
        b,
        omega (arith, l),
        omega (arith, l, ap length d, length-drop n (contents a.inner)),
      )

  pub count-rests :
      (a : Count S)
      → valid a.inner
      → a.count + length (contents a.inner) < usize_mod
      → (v : V) × (b : Count S) × (count_rest r a ≡ some (v, b))
        × (bytes v ≡ contents a.inner)
        × (b.count ≡ a.count + length (contents a.inner))
        × (contents b.inner ≡ [])
  unfolding count_rest
  count-rests a u k =
      let (v, s, e, e', u', b, d) = c.rests a.inner u in
      (
        v,
        counted s (a.count + r.view_len v),
        rw
            (
              e,
              count_rest,
              lt→ltb (a.count + r.view_len v) usize_mod
                  (omega (arith, k, c.len_lem v, ap length b)),
            )
            refl,
        b,
        omega (arith, c.len_lem v, ap length b),
        d,
      )
