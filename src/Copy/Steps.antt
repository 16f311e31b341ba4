-- ===== src/Copy/Steps.antt =====
-- One round of `copy_io`, over a writer and a reader that keep their contracts.
use byst.Prelude.{
  ℕ, ◌+◌, ◌≤◌, ◌<◌, min, ◌≡◌, sym, ap, ◌∙◌, subst, true, Option, none, some, List, [], ◌++◌, arith,
  ltb→lt, length, take, drop, length-take, all_kept, drop-overlay, take-take, ret,
}
use byst.Io.Interface.{BufReader, BufWriter}
use byst.Io.Laws.{Peeks, IsCursor, IsBufWriter}
use byst.Copy.{
  Round, next, stop, round, overwrite_round, extend_round, step_over, capped, left_of, wanted,
}

pub capped-le : (amount : Option ℕ) (n : ℕ) → capped amount n ≤ n
unfolding capped
capped-le none n = omega arith
capped-le (some a) n = omega arith

capped-positive : (amount : Option ℕ) (n : ℕ) → wanted amount ≡ true → 0 < n → 0 < capped amount n
unfolding wanted capped
capped-positive none n h k = k
capped-positive (some a) n h k = omega (arith, ltb→lt 0 a h)

capped-capped : (amount : Option ℕ) (n : ℕ) → capped amount n ≤ capped amount (capped amount n)
unfolding capped
capped-capped none n = omega arith
capped-capped (some a) n = omega arith

-- The front of a chunk is the front of what it is a chunk of.
take-chunk :
    (n : ℕ) (src xs : List ℕ) → n ≤ length src → src ≡ take (length src) xs → take n src ≡ take n xs
take-chunk n src xs h e =
    ap (take n) e
    ∙ take-take n (length src) xs
    ∙ ap (λ k. take k xs) {x = min n (length src)} (omega arith)

module _ {W S V : Type 0} {w : BufWriter W} {r : BufReader S V} (lw : IsBufWriter w)
    (lr : IsCursor r) where
  open lw use {before, after, fits}
  open lr use {contents}

  -- The round went on, and moved the first `n` bytes of the reader behind the writer's cursor.
  pub record Moved (n total : ℕ) (amount : Option ℕ) (d : W) (s : S) (out : Round W S)
      : Type 0 where
    pub d' : W
    pub s' : S
    pub goes : out ≡ next (total + n) amount d' s'
    pub sound : lw.valid d'
    pub sane : lr.valid s'
    pub written : before d' ≡ before d ++ take n (contents s)
    pub ahead : after d' ≡ drop n (after d)
    pub read : contents s' ≡ drop n (contents s)
    pub room : (m : ℕ) → fits d' m ≡ fits d (n + m)

  -- Bytes stored at the cursor, and the step over them.
  store-advance :
      (n : ℕ) (xs : List ℕ) (d : W)
      → lw.valid d
      → length xs ≡ n
      → n ≤ length (after d)
      → (d' : W) × (w.advance n (w.store xs d) ≡ ret tt d')
        × lw.valid d'
        × (before d' ≡ before d ++ xs)
        × (after d' ≡ drop n (after d))
        × ((m : ℕ) → fits d' m ≡ fits d (n + m))
  store-advance n xs d v e h =
      let (st0, st1, st2, st3) = lw.stores xs d v (rw e h) in
      let (d', dw, dv, db, da, df) = lw.advances n (w.store xs d) st0 (st3 n ∙ lw.holds n d v h) in
      (
        d',
        dw,
        dv,
        db ∙ rw (st1, st2) (ap (before d ++◌) (all_kept n 0 xs (after d) e h)),
        da ∙ rw st2 (drop-overlay n xs (after d) e),
        λ m. df m ∙ st3 (n + m),
      )

  step_over-eq :
      (n total : ℕ) (amount : Option ℕ) (d d' : W) (s s' : S)
      → w.advance n d ≡ ret tt d'
      → r.advance n s ≡ ret tt s'
      → step_over w r n total amount d s ≡ next (total + n) amount d' s'
  unfolding step_over
  step_over-eq n total amount d d' s s' p q = ground arith

  extend_round-eq :
      (total : ℕ) (amount : Option ℕ) (src : List ℕ) (d d' : W) (s s' : S)
      → w.extend src d ≡ ret tt d'
      → r.advance (length src) s ≡ ret tt s'
      → extend_round w r total amount src d s ≡ next (total + length src) amount d' s'
  unfolding extend_round
  extend_round-eq total amount src d d' s s' p q = ground arith

  -- Copying within the chunk at the cursor.
  pub step_over-Moved :
      (n total : ℕ) (amount : Option ℕ) (d : W) (s : S)
      → lw.valid d
      → lr.valid s
      → n ≤ length (after d)
      → n ≤ length (contents s)
      → Moved n total amount d s (step_over w r n total amount (w.store (take n (contents s)) d) s)
  step_over-Moved n total amount d s v u h k =
      let e : length (take n (contents s)) ≡ n = omega (arith, length-take n (contents s)) in
      let (d', dw, dv, db, da, df) = store-advance n (take n (contents s)) d v e h in
      let (s', sr, sv, sc) = lr.advances n s u k in
      record {
        d' = d';
        s' = s';
        goes = step_over-eq n total amount _ d' s s' dw sr;
        sound = dv;
        sane = sv;
        written = db;
        ahead = da;
        read = sc;
        room = df;
      }

  pub overwrite_round-Moved :
      (total : ℕ) (amount : Option ℕ) (dest src : List ℕ) (d : W) (s : S)
      → lw.valid d
      → lr.valid s
      → Peeks (some dest) (after d)
      → Peeks (some src) (contents s)
      → let n = capped amount (min (length dest) (length src)) in
        Moved n total (left_of amount n) d s (overwrite_round w r total amount dest src d s)
  unfolding overwrite_round
  overwrite_round-Moved total amount dest src d s v u (_, _, h) (_, e, k) =
      let n = capped amount (min (length dest) (length src)) in
      let le : n ≤ min (length dest) (length src) = capped-le amount _ in
      subst
        (λ xs.
          Moved n total (left_of amount n) d s
            (step_over w r n total (left_of amount n) (w.store xs d) s))
        (sym (take-chunk n src (contents s) (omega (arith, le)) e))
        (step_over-Moved n total (left_of amount n) d s v u (omega (arith, le)) (omega (arith, le)))

  pub extend_round-Moved :
      (total : ℕ) (amount : Option ℕ) (src : List ℕ) (d : W) (s : S)
      → lw.valid d
      → lr.valid s
      → after d ≡ []
      → fits d (length src) ≡ true
      → Peeks (some src) (contents s)
      → Moved (length src) total amount d s (extend_round w r total amount src d s)
  extend_round-Moved total amount src d s v u h f (_, e, k) =
      let (d', dw, dv, db, da, df) = lw.extends src d v f in
      let (s', sr, sv, sc) = lr.advances (length src) s u k in
      record {
        d' = d';
        s' = s';
        goes = extend_round-eq total amount src d d' s s' dw sr;
        sound = dv;
        sane = sv;
        written = db ∙ ap (before d ++◌) e;
        ahead = da;
        read = sc;
        room = df;
      }

  round-overwrite :
      (total : ℕ) (amount : Option ℕ) (dest src : List ℕ) (d : W) (s : S)
      → w.peek_chunk_mut d ≡ some dest
      → r.peek_chunk s ≡ some src
      → round w r total amount d s ≡ overwrite_round w r total amount dest src d s
  unfolding round
  round-overwrite total amount dest src d s p q = ground arith

  round-extend :
      (total : ℕ) (amount : Option ℕ) (src : List ℕ) (d : W) (s : S)
      → w.peek_chunk_mut d ≡ none
      → r.peek_chunk s ≡ some src
      → round w r total amount d s ≡ extend_round w r total amount src d s
  unfolding round
  round-extend total amount src d s p q = ground arith

  pub round-stop :
      (total : ℕ) (amount : Option ℕ) (d : W) (s : S)
      → r.peek_chunk s ≡ none
      → round w r total amount d s ≡ stop total d s
  unfolding round
  round-stop total amount d s q = ground arith

  -- A round that moved some of the reader's bytes, under an amount.
  pub record Progress (total : ℕ) (amount : Option ℕ) (d : W) (s : S) : Type 0 where
    pub n : ℕ
    pub positive : 0 < n
    pub in_source : n ≤ length (contents s)
    pub in_amount : n ≤ capped amount n
    pub moved : Moved n total (left_of amount n) d s (round w r total amount d s)

  -- Where both chunks are there, the round makes progress, unless the amount is used up.
  pub round-both :
      (total : ℕ) (amount : Option ℕ) (dest src : List ℕ) (d : W) (s : S)
      → lw.valid d
      → lr.valid s
      → wanted amount ≡ true
      → w.peek_chunk_mut d ≡ some dest
      → r.peek_chunk s ≡ some src
      → Peeks (some dest) (after d)
      → Peeks (some src) (contents s)
      → Progress total amount d s
  round-both total amount dest src d s v u a p q pd ps =
      let m = min (length dest) (length src) in
      record {
        n = capped amount m;
        positive = capped-positive amount m a (omega (arith, pd.0, ps.0));
        in_source = omega (arith, capped-le amount m, ps.2);
        in_amount = capped-capped amount m;
        moved =
            subst (Moved _ total _ d s) (sym (round-overwrite total amount dest src d s p q))
              (overwrite_round-Moved total amount dest src d s v u pd ps);
      }

  -- With no chunk to write over, the whole of the reader's chunk is appended, if it fits.
  pub round-grow :
      (total : ℕ) (amount : Option ℕ) (src : List ℕ) (d : W) (s : S)
      → lw.valid d
      → lr.valid s
      → w.peek_chunk_mut d ≡ none
      → after d ≡ []
      → fits d (length src) ≡ true
      → r.peek_chunk s ≡ some src
      → Peeks (some src) (contents s)
      → Moved (length src) total amount d s (round w r total amount d s)
  round-grow total amount src d s v u p e f q ps =
      subst (Moved _ total _ d s) (sym (round-extend total amount src d s p q))
        (extend_round-Moved total amount src d s v u e f ps)
