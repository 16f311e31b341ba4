-- ===== src/Io/Limit/Cursor.antt =====
-- The limited reader of byst/src/io/limit.rs, beside the contract of a cursor.
use byst.Prelude.{
  ℕ, zero, suc, ◌-◌, ◌≤◌, ◌<◌, min, ◌≡◌, refl, sym, ap, ◌∙◌, inl, inr, false, Option, none, some,
  List, arith, ◌==◌, lt→ltb, le→ltb, le-or-lt, length, take, drop, drop-take, length-take,
  take-take, ret, fail,
}
use byst.Io.Interface.{end_at, BufReader}
use byst.Io.Laws.{Peeks, IsCursor, IsCursorOf}
use byst.Io.Limit.{
  Limit, limited, limit_remaining, limit_end, limit_peek_chunk, limit_advance, limit_reader,
}

suc-ne-zero : (n : ℕ) → (suc n == 0) ≡ false
suc-ne-zero n = ground arith

module _ {S V : Type 0} {r : BufReader S V} (c : IsCursor r) where
  open c use {valid, contents}

  abbrev pub LimitValid : Limit S → Type 0
  LimitValid l = valid l.inner

  abbrev pub limit_contents : Limit S → List ℕ
  limit_contents l = take l.limit (contents l.inner)

  pub length-limit_contents :
      (l : Limit S) → length (limit_contents l) ≡ min l.limit (length (contents l.inner))
  length-limit_contents l = length-take l.limit (contents l.inner)

  pub limit_remains : (l : Limit S) → LimitValid l → limit_remaining r l ≡ length (limit_contents l)
  unfolding limit_remaining
  limit_remains l v = omega (arith, c.remains l.inner v, length-limit_contents l)

  chunk_cut :
      (n : ℕ) (chunk xs : List ℕ)
      → 0 < n
      → Peeks (some chunk) xs
      → Peeks (some (take (min (length chunk) n) chunk)) (take n xs)
  chunk_cut n chunk xs h (p, e, k) =
      let l : length (take (min (length chunk) n) chunk) ≡ min (length chunk) n =
        omega (arith, length-take (min (length chunk) n) chunk) in
      (
        omega (arith, l),
        ap (take (min (length chunk) n)) e
            ∙ take-take (min (length chunk) n) (length chunk) xs
            ∙ ap (λ m. take m xs) {x = min (min (length chunk) n) (length chunk)}
                {y = min (min (length chunk) n) n} (omega arith)
            ∙ sym (take-take (min (length chunk) n) n xs)
            ∙ ap (λ m. take m (take n xs)) (sym l),
        omega (arith, l, length-take n xs),
      )

  peek-cases :
      (n : ℕ) (s : S) (q : Option (List ℕ))
      → r.peek_chunk s ≡ q
      → Peeks q (contents s)
      → Peeks (limit_peek_chunk r (limited s n)) (take n (contents s))
  unfolding limit_peek_chunk
  peek-cases zero s q e p = refl
  peek-cases (suc n) s none e p = rw (suc-ne-zero n, e, p) refl
  peek-cases (suc n) s (some chunk) e p =
      rw (suc-ne-zero n, e) (chunk_cut (suc n) chunk (contents s) (omega arith) p)

  pub limit-peeks : (l : Limit S) → LimitValid l → Peeks (limit_peek_chunk r l) (limit_contents l)
  limit-peeks l v = peek-cases l.limit l.inner (r.peek_chunk l.inner) refl (c.peeks l.inner v)

  pub limit-advances :
      (n : ℕ) (l : Limit S)
      → LimitValid l
      → n ≤ length (limit_contents l)
      → (l' : Limit S) × (limit_advance r n l ≡ ret tt l')
        × LimitValid l'
        × (limit_contents l' ≡ drop n (limit_contents l))
  unfolding limit_advance
  limit-advances n l v h =
      let (s', e, v', d) = c.advances n l.inner v (omega (arith, length-limit_contents l)) in
      (
        limited s' (l.limit - n),
        rw (le→ltb l.limit n (omega (arith, length-limit_contents l)), e) refl,
        v',
        ap (take (l.limit - n)) d ∙ sym (drop-take n l.limit (contents l.inner)),
      )

  pub limit-ends :
      (n : ℕ) (l : Limit S)
      → LimitValid l
      → length (limit_contents l) < n
      → limit_advance r n l ≡ fail (end_at n (length (limit_contents l))) l
  unfolding limit_advance limit_end
  limit-ends n l v h = elim (le-or-lt n l.limit) [
    | inr k ↦ rw (lt→ltb _ _ k) (ap (λ m. fail (end_at n m) l) (limit_remains l v))
    | inl k ↦
        let m : length (contents l.inner) ≡ length (limit_contents l) =
          omega (arith, length-limit_contents l) in
        rw (le→ltb _ _ k, c.ends n l.inner v (omega (arith, m))) (ap (λ m. fail (end_at n m) l) m)
  ]

  -- A limited reader is a cursor whenever its inner reader is: its bytes are the first `limit` of the
  -- inner reader's, its chunks are cut at the limit, and steps beyond it are refused unchanged.
  unfoldable pub limit_cursor : IsCursor (limit_reader r)
  unfolding limit_reader
  limit_cursor = record {
    valid = LimitValid;
    contents = limit_contents;
    peeks = limit-peeks;
    advances = limit-advances;
    ends = limit-ends;
    remains = limit_remains;
  }

  -- Limiting a reader that keeps the contract for its position gives one that keeps it, on all
  -- states where the inner reader is valid and whatever the limit: what is left of it is the
  -- first bytes of what is left of the inner reader, up to the limit; its chunk is a front of
  -- these, and a step beyond them is an error that changes nothing.
  pub limit_reader-IsCursorOf : IsCursorOf (limit_reader r) LimitValid limit_contents
  unfolding limit_cursor
  limit_reader-IsCursorOf = (limit_cursor, refl, refl)
