-- ===== src/Copy/All.antt =====
-- `copy_io` of byst/src/copy.rs that takes everything the reader has.
use byst.Prelude.{
  ℕ, zero, suc, ◌+◌, ◌-◌, ◌≤◌, ◌<◌, ◌≡◌, refl, sym, ap, ◌∙◌, subst, ◌⊎◌, inl, inr, true, false,
  Option, none, some, List, [], ◌++◌, append-nil, append_assoc, arith, Bool-cases, length, take,
  drop, take-add, take-add, length-drop, drop-drop,
}
use mathlib.Core.Path.{subst₃}
use byst.Io.Interface.{BufReader, BufWriter}
use byst.Io.Laws.{Peeks, IsCursor, IsBufWriter}
use byst.Copy.{Copied, copied, Round, next, stop, round, copy_loop, copy_io, wanted, left_of}
use byst.Copy.Steps.{Moved, round-both, round-grow, round-stop}

-- an amount that `n` bytes do not exceed
abbrev pub Covers : Option ℕ → ℕ → Type 0
Covers none n = Unit
Covers (some a) n = n ≤ a

Covers-left : (amount : Option ℕ) (n m : ℕ) → Covers amount m → Covers (left_of amount n) (m - n)
unfolding left_of
Covers-left none n m c = tt
Covers-left (some a) n m c = omega arith

Covers-less : (amount : Option ℕ) (n m : ℕ) → Covers amount m → n ≤ m → Covers amount n
Covers-less none n m c h = tt
Covers-less (some a) n m c h = omega arith

Covers-idle : (amount : Option ℕ) (n : ℕ) → Covers amount n → wanted amount ≡ false → n ≡ 0
unfolding wanted
Covers-idle none n c e = cc
Covers-idle (some a) n c e = ground arith

module _ {W S V : Type 0} {w : BufWriter W} {r : BufReader S V} (lw : IsBufWriter w)
    (lr : IsCursor r) where
  open lw use {before, after, fits}
  open lr use {contents}

  -- The call ended with `total` bytes counted, and moved the first `n` of the reader.
  pub record Copies (n total : ℕ) (d : W) (s : S) (out : Copied W S) : Type 0 where
    pub d' : W
    pub s' : S
    pub ends : out ≡ copied total d' s'
    pub sound : lw.valid d'
    pub sane : lr.valid s'
    pub written : before d' ≡ before d ++ take n (contents s)
    pub ahead : after d' ≡ drop n (after d)
    pub read : contents s' ≡ drop n (contents s)
    pub room : (m : ℕ) → fits d' m ≡ fits d (n + m)

  pub nothing :
      (total : ℕ) (d : W) (s : S) → lw.valid d → lr.valid s → Copies 0 total d s (copied total d s)
  nothing total d s v u = record {
    d' = d;
    s' = s;
    ends = refl;
    sound = v;
    sane = u;
    written = sym (append-nil _);
    ahead = refl;
    read = refl;
    room = λ m. ap (fits d) {x = m} {y = 0 + m} (omega arith);
  }

  pub Copies-cast :
      {n n' total total' : ℕ} {d : W} {s : S} {out out' : Copied W S}
      → n ≡ n'
      → total ≡ total'
      → out ≡ out'
      → Copies n total d s out
      → Copies n' total' d s out'
  Copies-cast {d = d} {s = s} p q e c = subst₃ (λ a b o. Copies a b d s o) p q e c

  -- A round and what comes after it.
  pub Copies-after :
      {n m total total' : ℕ} {amount : Option ℕ} {d : W} {s : S} {o : Round W S} (out : Copied W S)
      → (mv : Moved lw lr n total amount d s o) → Copies m total' mv.d' mv.s' out
      → Copies (n + m) total' d s out
  Copies-after {n} {m} {d = d} {s = s} out mv c = record {
    d' = c.d';
    s' = c.s';
    ends = c.ends;
    sound = c.sound;
    sane = c.sane;
    written =
        c.written
        ∙ rw (mv.written, mv.read)
            (append_assoc (before d) (take n (contents s)) (take m (drop n (contents s)))
              ∙ ap (before d ++◌) (take-add n m (contents s)));
    ahead = c.ahead ∙ ap (drop m) mv.ahead ∙ drop-drop m n (after d);
    read = c.read ∙ ap (drop m) mv.read ∙ drop-drop m n (contents s);
    room = λ k. c.room k ∙ mv.room (m + k) ∙ ap (fits d) {y = n + m + k} (omega arith);
  }

  -- The loop goes on after a round that moved something.
  pub copy_loop-next :
      (fuel total total' : ℕ) (amount amount' : Option ℕ) (d d' : W) (s s' : S)
      → wanted amount ≡ true
      → round w r total amount d s ≡ next total' amount' d' s'
      → copy_loop w r (suc fuel) total amount d s ≡ copy_loop w r fuel total' amount' d' s'
  unfolding copy_loop
  copy_loop-next fuel total total' amount amount' d d' s s' p q = ground arith

  pub copy_loop-stop :
      (fuel total : ℕ) (amount : Option ℕ) (d : W) (s : S)
      → wanted amount ≡ true
      → round w r total amount d s ≡ stop total d s
      → copy_loop w r (suc fuel) total amount d s ≡ copied total d s
  unfolding copy_loop
  copy_loop-stop fuel total amount d s p q = ground arith

  -- A round on a writer that holds all stops at the reader's end, or moves bytes, and the amount
  -- still covers what is left.
  round-all :
      (total : ℕ) (amount : Option ℕ) (d : W) (s : S) (p q : Option (List ℕ))
      → lw.valid d
      → lr.valid s
      → wanted amount ≡ true
      → Covers amount (length (contents s))
      → w.peek_chunk_mut d ≡ p
      → r.peek_chunk s ≡ q
      → Peeks p (after d)
      → Peeks q (contents s)
      → fits d (length (contents s)) ≡ true
      → ((n : ℕ) × (amount' : Option ℕ) × (0 < n)
          × (n ≤ length (contents s))
          × Covers amount' (length (contents s) - n)
          × Moved lw lr n total amount' d s (round w r total amount d s))
        ⊎ ((contents s ≡ []) × (round w r total amount d s ≡ stop total d s))
  round-all total amount d s p none v u a c e e' pd ps f =
      inr (ps, round-stop lw lr total amount d s e')
  round-all total amount d s (some dest) (some src) v u a c e e' pd ps f =
      let g = round-both lw lr total amount dest src d s v u a e e' pd ps in
      inl (g.n, left_of amount g.n, g.positive, g.in_source, Covers-left amount g.n _ c, g.moved)
  round-all total amount d s none (some src) v u a c e e' pd ps f = inl (
    length src,
    amount,
    ps.0,
    ps.2,
    Covers-less amount _ _ c (omega arith),
    round-grow lw lr total amount src d s v u e pd (lw.shrinks _ _ d ps.2 f) e' ps,
  )

  -- what is still to be copied fits behind what a round has moved
  fits-rest :
      {n total : ℕ} {amount : Option ℕ} {d : W} {s : S} {o : Round W S}
      → (mv : Moved lw lr n total amount d s o) → n ≤ length (contents s)
      → fits d (length (contents s)) ≡ true
      → fits mv.d' (length (contents mv.s')) ≡ true
  fits-rest {n} {d = d} {s = s} mv h f =
      ap (λ xs. fits mv.d' (length xs)) mv.read
      ∙ mv.room _
      ∙ ap (fits d) {y = length (contents s)} (omega (arith, length-drop n (contents s)))
      ∙ f

  -- A covering amount is used up only where nothing is left.
  copy_loop-idle :
      (fuel total : ℕ) (amount : Option ℕ) (d : W) (s : S)
      → wanted amount ≡ false
      → copy_loop w r (suc fuel) total amount d s ≡ copied total d s
  unfolding copy_loop
  copy_loop-idle fuel total amount d s e = ground arith

  copy_loop-all :
      (fuel total : ℕ) (amount : Option ℕ) (d : W) (s : S)
      → lw.valid d
      → lr.valid s
      → length (contents s) < fuel
      → Covers amount (length (contents s))
      → fits d (length (contents s)) ≡ true
      → Copies
          (length (contents s))
          (total + length (contents s))
          d
          s
          (copy_loop w r fuel total amount d s)
  copy_loop-all zero total amount d s v u h c f = absurd (omega arith)
  copy_loop-all (suc fuel) total amount d s v u h c f = elim (Bool-cases (wanted amount)) [
    | inr idle ↦
        let z : length (contents s) ≡ 0 = Covers-idle amount _ c idle in
        Copies-cast (sym z) (omega (arith, z)) (sym (copy_loop-idle fuel total amount d s idle))
          (nothing total d s v u)
    | inl on ↦
        elim (round-all total amount d s (w.peek_chunk_mut d) (r.peek_chunk s) v u on c refl refl
          (lw.peeks d v) (lr.peeks s u) f) [
            | inr (e, st) ↦
                Copies-cast (sym (ap length e)) (omega (arith, ap length e))
                  (sym (copy_loop-stop fuel total amount d s on st)) (nothing total d s v u)
            | inl (n, amount', pos, le, c', mv) ↦
                let k : length (contents mv.s') ≡ length (contents s) - n =
                  ap length mv.read ∙ length-drop n (contents s) in
                Copies-cast (omega (arith, k)) (omega (arith, k))
                  (sym (
                    copy_loop-next fuel total (total + n) amount amount' d mv.d' s mv.s' on
                      mv.goes))
                  (Copies-after _ mv (
                    copy_loop-all fuel (total + n) amount' mv.d' mv.s' mv.sound mv.sane
                      (omega (arith, k)) (subst (Covers amount') (sym k) c') (fits-rest mv le f)))
          ]
  ]

  -- `copy_io`, without an amount or with one that the reader's bytes do not exceed, from a
  -- reader that keeps its contract into a writer that keeps its contract and in which those
  -- bytes fit, ends without a panic; it has counted every byte of the reader, the bytes before
  -- the writer's cursor are followed by them, as many of the bytes ahead of it are replaced, and
  -- the reader is at its end.
  pub copy_io-all :
      (amount : Option ℕ) (d : W) (s : S)
      → lw.valid d
      → lr.valid s
      → Covers amount (length (contents s))
      → fits d (length (contents s)) ≡ true
      → Copies (length (contents s)) (length (contents s)) d s (copy_io w r d s amount)
  unfolding copy_io
  copy_io-all amount d s v u c f =
      Copies-cast refl (omega arith) refl
        (copy_loop-all (suc (r.remaining s)) 0 amount d s v u (omega (arith, lr.remains s u)) c f)
