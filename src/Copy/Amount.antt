-- ===== src/Copy/Amount.antt =====
-- `copy_io` with an amount that the reader has and that the writer's initialised part holds.
use byst.Prelude.{
  ℕ, zero, suc, ◌+◌, ◌-◌, ◌≤◌, ◌<◌, min, ◌≡◌, refl, sym, ap, inl, inr, true, Option, none, some,
  List, arith, lt→ltb, le-or-lt, length, length-drop,
}
use byst.Io.Interface.{BufReader, BufWriter}
use byst.Io.Laws.{Peeks, IsCursor, IsBufWriter}
use byst.Copy.{copied, copy_loop, copy_io, wanted, capped, left_of}
use byst.Copy.Steps.{Progress, round-both}
use byst.Copy.All.{Copies, nothing, Copies-cast, Copies-after, copy_loop-next, copy_io-all}

pub wanted-pos : (a : ℕ) → 0 < a → wanted (some a) ≡ true
unfolding wanted
wanted-pos a h = lt→ltb 0 a h

in_some : {a n : ℕ} → n ≤ capped (some a) n → n ≤ a
unfolding capped
in_some h = omega arith

module _ {W S V : Type 0} {w : BufWriter W} {r : BufReader S V} (lw : IsBufWriter w)
    (lr : IsCursor r) where
  open lw use {before, after, fits}
  open lr use {contents}

  -- a nonempty list has a chunk
  round-amount :
      (total a : ℕ) (d : W) (s : S) (p q : Option (List ℕ))
      → lw.valid d
      → lr.valid s
      → 0 < a
      → a ≤ length (after d)
      → a ≤ length (contents s)
      → w.peek_chunk_mut d ≡ p
      → r.peek_chunk s ≡ q
      → Peeks p (after d)
      → Peeks q (contents s)
      → Progress lw lr total (some a) d s
  round-amount total a d s p none v u h k l e e' pd ps = absurd (omega (arith, ap length ps))
  round-amount total a d s none q v u h k l e e' pd ps = absurd (omega (arith, ap length pd))
  round-amount total a d s (some dest) (some src) v u h k l e e' pd ps =
      round-both lw lr total (some a) dest src d s v u (wanted-pos a h) e e' pd ps

  copy_loop-done :
      (fuel total : ℕ) (d : W) (s : S)
      → copy_loop w r (suc fuel) total (some 0) d s ≡ copied total d s
  unfolding copy_loop wanted
  copy_loop-done fuel total d s = refl

  copy_loop-amount :
      (fuel total a : ℕ) (d : W) (s : S)
      → lw.valid d
      → lr.valid s
      → a ≤ length (after d)
      → a ≤ length (contents s)
      → a < fuel
      → Copies lw lr a (total + a) d s (copy_loop w r fuel total (some a) d s)
  unfolding left_of
  copy_loop-amount zero total a d s v u k l h = absurd (omega arith)
  copy_loop-amount (suc fuel) total zero d s v u k l h =
      Copies-cast lw lr refl (omega arith) (sym (copy_loop-done fuel total d s))
        (nothing lw lr total d s v u)
  copy_loop-amount (suc fuel) total (suc a) d s v u k l h =
      let g =
        round-amount total (suc a) d s (w.peek_chunk_mut d) (r.peek_chunk s) v u (omega arith) k l
          refl refl (lw.peeks d v) (lr.peeks s u) in
      let n = g.n in
      let mv = g.moved in
      let le : n ≤ suc a = in_some g.in_amount in
      let pos : 0 < n = g.positive in
      Copies-cast lw lr (omega arith) (omega arith)
        (sym (
          copy_loop-next lw lr fuel total (total + n) (some (suc a)) (left_of (some (suc a)) n) d
            mv.d' s mv.s' (wanted-pos (suc a) (omega arith)) mv.goes))
        (Copies-after lw lr _ mv (
          copy_loop-amount fuel (total + n) (suc a - n) mv.d' mv.s' mv.sound mv.sane
            (omega (arith, ap length mv.ahead, length-drop n (after d)))
            (omega (arith, ap length mv.read, length-drop n (contents s))) (omega arith)))

  -- `copy_io` with an amount, of which the reader has as many bytes and the writer as many ahead
  -- of its cursor, both keeping their contracts, ends without a panic; it has counted exactly
  -- the amount, and has replaced as many bytes behind the cursor by the reader's next ones.
  pub copy_io-amount :
      (a : ℕ) (d : W) (s : S)
      → lw.valid d
      → lr.valid s
      → a ≤ length (after d)
      → a ≤ length (contents s)
      → Copies lw lr a a d s (copy_io w r d s (some a))
  unfolding copy_io
  copy_io-amount a d s v u k l =
      Copies-cast lw lr refl (omega arith) refl
        (copy_loop-amount (suc (r.remaining s)) 0 a d s v u k l (omega (arith, lr.remains s u)))

  -- As many bytes as the amount, or all of them if the reader has fewer.
  pub copy_io-up_to :
      (a : ℕ) (d : W) (s : S)
      → lw.valid d
      → lr.valid s
      → a ≤ length (after d)
      → Copies lw lr
          (min a (length (contents s)))
          (min a (length (contents s)))
          d
          s
          (copy_io w r d s (some a))
  copy_io-up_to a d s v u h = elim (le-or-lt a (length (contents s))) [
    | inl k ↦ Copies-cast lw lr (omega arith) (omega arith) refl (copy_io-amount a d s v u h k)
    | inr k ↦ Copies-cast lw lr (omega arith) (omega arith) refl (
        copy_io-all lw lr (some a) d s v u (omega arith)
          (lw.holds (length (contents s)) d v (omega arith)))
  ]
