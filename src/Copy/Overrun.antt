-- ===== src/Copy/Overrun.antt =====
-- `copy_io` with an amount into a writer that has nothing ahead of its cursor, such as that of an
-- empty `Vec`: the arm `(None, Some(src_chunk))` extends by the whole chunk, whatever the amount.
use byst.Prelude.{
  ℕ, suc, ◌+◌, ◌-◌, ◌<◌, ◌≡◌, refl, sym, ap, ◌∙◌, subst, true, Option, none, some, List, [], arith,
  length, drop_all,
}
use byst.Io.Interface.{BufReader, BufWriter}
use byst.Io.Laws.{Peeks, IsCursor, IsBufWriter}
use byst.Copy.{copy_loop, copy_io}
use byst.Copy.Steps.{round-grow, round-stop}
use byst.Copy.All.{Copies, nothing, Copies-cast, Copies-after, copy_loop-next, copy_loop-stop}
use byst.Copy.Amount.{wanted-pos}

module _ {W S V : Type 0} {w : BufWriter W} {r : BufReader S V} (lw : IsBufWriter w)
    (lr : IsCursor r) where
  open lw use {before, after, fits}
  open lr use {contents}

  peek-none :
      (s : S) (q : Option (List ℕ))
      → contents s ≡ []
      → r.peek_chunk s ≡ q
      → Peeks q (contents s)
      → r.peek_chunk s ≡ none
  peek-none s none e p ps = p
  peek-none s (some c) e p ps = absurd (omega (arith, ps, ap length e))

  peek_mut-none :
      (d : W) (q : Option (List ℕ))
      → after d ≡ []
      → w.peek_chunk_mut d ≡ q
      → Peeks q (after d)
      → w.peek_chunk_mut d ≡ none
  peek_mut-none d none e p ps = p
  peek_mut-none d (some c) e p ps = absurd (omega (arith, ps, ap length e))

  copy_loop-end :
      (fuel total a : ℕ) (d : W) (s : S)
      → lw.valid d
      → lr.valid s
      → 0 < a
      → contents s ≡ []
      → Copies lw lr 0 total d s (copy_loop w r (suc fuel) total (some a) d s)
  copy_loop-end fuel total a d s v u h e =
      Copies-cast lw lr refl refl
        (sym (
          copy_loop-stop lw lr fuel total (some a) d s (wanted-pos a h) (
            round-stop lw lr total (some a) d s
              (peek-none s (r.peek_chunk s) e refl (lr.peeks s u)))))
        (nothing lw lr total d s v u)

  copy_loop-overrun :
      (fuel a : ℕ) (d : W) (s : S)
      → lw.valid d
      → lr.valid s
      → 0 < a
      → after d ≡ []
      → fits d (length (contents s)) ≡ true
      → r.peek_chunk s ≡ some (contents s)
      → Copies lw lr
          (length (contents s))
          (length (contents s))
          d
          s
          (copy_loop w r (suc (suc fuel)) 0 (some a) d s)
  copy_loop-overrun fuel a d s v u h e f p =
      let c = contents s in
      let ps : Peeks (some c) c = subst (λ q. Peeks q c) p (lr.peeks s u) in
      let mv =
        round-grow lw lr 0 (some a) c d s v u
          (peek_mut-none d (w.peek_chunk_mut d) e refl (lw.peeks d v)) e f p ps in
      Copies-cast lw lr (omega arith) (omega arith)
        (sym (
          copy_loop-next lw lr (suc fuel) 0 (0 + length c) (some a) (some a) d mv.d' s mv.s'
            (wanted-pos a h) mv.goes))
        (Copies-after lw lr _ mv (
          copy_loop-end fuel (0 + length c) a mv.d' mv.s' mv.sound mv.sane h
            (mv.read ∙ drop_all (length c) c (omega arith))))

  -- With nothing ahead of the writer's cursor and a reader whose bytes are one chunk, both
  -- keeping their contracts, `copy_io` with an amount that is not 0 and below the chunk's
  -- length, where the whole chunk fits, copies and counts the whole chunk.
  pub copy_io-overrun :
      (a : ℕ) (d : W) (s : S)
      → lw.valid d
      → lr.valid s
      → 0 < a
      → a < length (contents s)
      → after d ≡ []
      → fits d (length (contents s)) ≡ true
      → r.peek_chunk s ≡ some (contents s)
      → Copies lw lr (length (contents s)) (length (contents s)) d s (copy_io w r d s (some a))
  unfolding copy_io
  copy_io-overrun a d s v u h k e f p =
      Copies-cast lw lr refl refl
        (ap (λ k. copy_loop w r (suc k) 0 (some a) d s) {x = suc (r.remaining s - 1)}
          (omega (arith, lr.remains s u)))
        (copy_loop-overrun (r.remaining s - 1) a d s v u h e f p)
