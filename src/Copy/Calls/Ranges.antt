-- ===== src/Copy/Calls/Ranges.antt =====
-- `copy_range` of byst/src/copy.rs between parts of a buffer that are there.
use byst.Prelude.{
  ℕ, zero, suc, ◌+◌, ◌-◌, ◌≤◌, ◌≡◌, refl, sym, ap, ap₂, ◌∙◌, subst, some, ◌++◌, append-nil,
  append_assoc, arith, le→ltb, le→leb, eq→==, gt→==, length, take, drop, replicate, length-drop,
  drop-drop, Outcome, ret,
}
use byst.Range.{range}
use byst.Io.Interface.{BufReader, BufWriter}
use byst.Io.Laws.{IsCursor, IsBufWriter}
use byst.Buf.{BufMut}
use byst.Copy.{Copied, copy_io}
use byst.Copy.All.{Copies}
use byst.Copy.Amount.{copy_io-amount}
use byst.Copy.Calls.{
  CopyRangeError, asserted, copy_between, copy_parts, source_end, destination_end, copy_range,
}

module _ {B W S V : Type 0} {w : BufWriter W} {r : BufReader S V} (b : BufMut B W)
    (lw : IsBufWriter w) (lr : IsCursor r) where
  open lw use {before, after, fits}
  open lr use {contents}

  -- The call ended, after moving `n` bytes from `ss` behind `ds` ones of the writer `d0`.
  pub record Moves (d0 : W) (s : S) (ds ss n : ℕ) (out : Outcome B CopyRangeError (Unit {0}))
      : Type 0 where
    pub d : W
    pub ends : out ≡ ret tt (b.inner d)
    pub sound : lw.valid d
    pub written : before d ≡ before d0 ++ (take ds (after d0) ++ take n (drop ss (contents s)))
    pub ahead : after d ≡ drop (ds + n) (after d0)

  asserted-Moves :
      (d d0 : W) (s s0 : S) (ds ss n : ℕ) (o : Copied W S)
      → before d ≡ before d0 ++ take ds (after d0)
      → after d ≡ drop ds (after d0)
      → contents s ≡ drop ss (contents s0)
      → Copies lw lr n n d s o
      → Moves d0 s0 ds ss n (asserted b w r n o)
  unfolding asserted
  asserted-Moves d d0 s s0 ds ss n o e f g c = record {
    d = c.d';
    ends = ap (asserted b w r n) c.ends ∙ rw (eq→== n n refl) refl;
    sound = c.sound;
    written =
        c.written
        ∙ ap₂ (λ x y. x ++ take n y) e g
        ∙ append_assoc (before d0) (take ds (after d0)) (take n (drop ss (contents s0)));
    ahead = c.ahead ∙ ap (drop n) f ∙ drop-drop n ds (after d0);
  }

  between-Moves :
      (d d0 : W) (s : S) (ds ss n : ℕ)
      → lw.valid d
      → lr.valid s
      → before d ≡ before d0 ++ take ds (after d0)
      → after d ≡ drop ds (after d0)
      → n ≤ length (after d)
      → ss + n ≤ length (contents s)
      → Moves d0 s ds ss n (copy_between b w r ss n d s)
  unfolding copy_between
  between-Moves d d0 s ds zero n v u e f h k =
      asserted-Moves d d0 s s ds 0 n (copy_io w r d s (some n)) e f refl
        (copy_io-amount lw lr n d s v u h (omega arith))
  between-Moves d d0 s ds (suc ss) n v u e f h k =
      let (s', go, u', g) = lr.advances (suc ss) s u (omega arith) in
      rw (gt→== (suc ss) 0 (omega arith), go)
        (asserted-Moves d d0 s' s ds (suc ss) n (copy_io w r d s' (some n)) e f g (
          copy_io-amount lw lr n d s' v u' h
            (omega (arith, k, ap length g, length-drop (suc ss) (contents s)))))

  stepped-before :
      (n : ℕ) (d d' : W)
      → n ≤ length (after d)
      → before d' ≡ before d ++ (take n (after d) ++ replicate (n - length (after d)) 0)
      → before d' ≡ before d ++ take n (after d)
  stepped-before n d d' h e =
      e
      ∙ ap (λ k. before d ++ (take n (after d) ++ replicate k 0)) {x = n - length (after d)} {y = 0}
          (omega arith)
      ∙ ap (before d ++◌) (append-nil (take n (after d)))

  parts-Moves :
      (destination : B) (s : S) (ds ss n : ℕ)
      → lw.valid (b.writer destination)
      → lr.valid s
      → ds + n ≤ length (after (b.writer destination))
      → ss + n ≤ length (contents s)
      → Moves (b.writer destination) s ds ss n (copy_parts b w r ds ss n destination s)
  unfolding copy_parts
  parts-Moves destination s zero ss n v u h k =
      between-Moves (b.writer destination) (b.writer destination) s 0 ss n v u
        (sym (append-nil (before (b.writer destination)))) refl (omega arith) k
  parts-Moves destination s (suc ds) ss n v u h k =
      let d0 = b.writer destination in
      let (d, go, v', e, f, _) = lw.advances (suc ds) d0 v (lw.holds (suc ds) d0 v (omega arith)) in
      rw (gt→== (suc ds) 0 (omega arith), go)
        (between-Moves d d0 s (suc ds) ss n v' u (stepped-before (suc ds) d0 d (omega arith) e) f
          (omega (arith, ap length f, length-drop (suc ds) (after d0))) k)

  -- `copy_range` with ranges that have both bounds, from `ss` to `ss + n` of a source that keeps
  -- the contract of the readers and has these bytes, to `ds` to `ds + n` of a buffer whose
  -- writer keeps its contract and has these bytes ahead, succeeds; the writer that it ends with
  -- has added the first `ds` bytes that were ahead and the `n` bytes of the source to those
  -- before its cursor, and has the bytes from `ds + n` on ahead.
  pub copy_range_lem :
      (destination : B) (s : S) (ds ss n : ℕ)
      → lw.valid (b.writer destination)
      → lr.valid s
      → ds + n ≤ length (after (b.writer destination))
      → ss + n ≤ length (contents s)
      → Moves (b.writer destination) s ds ss n (
          copy_range b w r destination
            (range (some ds) (some (ds + n)))
            s
            (range (some ss) (some (ss + n))))
  unfolding copy_range source_end destination_end
  copy_range_lem destination s ds ss n v u h k =
      let e : ss + n - ss ≡ n = omega arith in
      subst
        (λ m. Moves (b.writer destination) s ds ss m (
          copy_range b w r destination (range (some ds) (some (ds + n))) s
            (range (some ss) (some (ss + n)))))
        e
        (rw
          (
            copy_range,
            source_end,
            destination_end,
            lr.remains s u,
            le→ltb (length (contents s)) (ss + n) k,
            le→leb ss (ss + n) (omega arith),
            le→leb ds (ds + n) (omega arith),
            eq→== (ds + n - ds) (ss + n - ss) (omega arith),
          )
          (parts-Moves destination s ds ss (ss + n - ss) v u (omega arith) (omega arith)))
