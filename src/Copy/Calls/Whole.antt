-- ===== src/Copy/Calls/Whole.antt =====
-- `copy` of byst/src/copy.rs, where the destination has room for the source.
use byst.Prelude.{
  ℕ, ◌≡◌, refl, sym, ap₂, ◌∙◌, true, none, [], ◌++◌, arith, eq→==, length, take_all, overlay, ok,
}
use byst.Io.Interface.{BufReader, BufWriter}
use byst.Io.Laws.{IsCursor, IsBufWriter}
use byst.Buf.{BufMut}
use byst.Copy.{copied, copy_io}
use byst.Copy.All.{copy_io-all}
use byst.Copy.Calls.{copy, checked_total}

module _ {B W S V : Type 0} {w : BufWriter W} {r : BufReader S V} (b : BufMut B W)
    (lw : IsBufWriter w) (lr : IsCursor r) where
  open lw use {before, after, fits}
  open lr use {contents}

  copy_ok :
      (n : ℕ) (d d' : W) (s s' : S)
      → copy_io w r d s none ≡ copied n d' s'
      → n ≡ r.remaining s
      → checked_total b w r (r.remaining s) (copy_io w r d s none) ≡ ok (b.inner d')
  unfolding checked_total
  copy_ok n d d' s s' e k = rw (e, k, eq→== (r.remaining s) (r.remaining s) refl)

  -- Where the buffer can reserve room for the source, and the writer of the reserved buffer
  -- keeps its contract, stands at its start and has that room, `copy` from a reader that keeps
  -- its contract succeeds: the bytes before the cursor of the writer that it ends with, and
  -- those after it, are the source put over the front of the reserved buffer's bytes.
  pub copy_lem :
      (destination reserved : B) (s : S)
      → b.reserve (r.remaining s) destination ≡ ok reserved
      → lw.valid (b.writer reserved)
      → lr.valid s
      → before (b.writer reserved) ≡ []
      → fits (b.writer reserved) (length (contents s)) ≡ true
      → (d : W) × (copy b w r destination s ≡ ok (b.inner d))
        × lw.valid d
        × (before d ++ after d ≡ overlay (contents s) (after (b.writer reserved)))
  unfolding copy
  copy_lem destination reserved s e v u z f =
      let c = copy_io-all lw lr none (b.writer reserved) s v u tt f in
      (
        c.d',
        rw e (copy_ok (length (contents s)) _ c.d' s c.s' c.ends (sym (lr.remains s u))),
        c.sound,
        ap₂ ◌++◌ (c.written ∙ rw z (take_all (length (contents s)) (contents s) (omega arith)))
            c.ahead,
      )
