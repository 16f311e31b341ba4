-- ===== src/Copy/Calls.antt =====
-- `copy` and `copy_range` of byst/src/copy.rs, over any buffer with a writer, and a reader of the
-- source. The length of the source is what its reader has left.
pub mod Ranges
pub mod Whole
pub mod Buffers
use byst.Prelude.{
  ℕ, zero, suc, ◌+◌, ◌-◌, ◌*◌, ◌/◌, ◌%◌, ◌^◌, ◌≤◌, ◌<◌, min, max, ◌≡◌, refl, sym, ap, ap₂, ◌∙◌,
  subst, ◌≢◌, ◌↔◌, ◌⊎◌, inl, inr, Bool, true, false, not, ◌&&◌, ◌||◌, Option, none, some, List, [],
  ◌∷◌, ◌++◌, map, reverse, append-nil, append_assoc, arith, ltb, leb, ◌==◌, if◌then◌else◌, ltb→lt,
  lt→ltb, le→ltb, leb→le, le→leb, lt→leb, eq→==, Bool-cases, le-or-lt, Option-cases, usize_mod,
  checked_add, checked_sub, length, get_elem?, take, drop, replicate, length-append,
  take-append-drop, take-add, drop-take, length-take, length-drop, length-replicate, drop_all,
  take_all, drop_nil, take_nil, drop-drop, take-append, drop-append, take-append_le, drop-append_le,
  take-take, eq-nil_of_length, overlay, overlay_at, length-overlay, length-overlay_at, take-front,
  drop-front, take-overlay_at, drop-overlay_at, drop-overlay, all_kept, overlay-extend,
  take-overlay_at_end, drop-overlay_at_end, take-pad, drop-pad, Result, ok, err, panic, Outcome,
  ret, fail, abort, or_panic, or_abort, ◌>>=◌, map_err, map_fail, within,
}
use byst.Range.{Range, RangeOutOfBounds, out_of_bounds, unwrap_or}
use byst.Io.Interface.{BufReader, BufWriter}
use byst.Buf.{Full, BufMut, from_io_full}
use byst.Copy.{Copied, copied, panicked, out_of_fuel, copy_io}

-- `struct LengthMismatch`
pub record LengthMismatch : Type 0 where
  pub destination_range : Range
  pub destination_length : ℕ
  pub source_range : Range
  pub source_length : ℕ

-- `enum CopyRangeError`
pub data CopyRangeError : Type 0 where
  source_range_out_of_bounds : RangeOutOfBounds → CopyRangeError
  length_mismatch : LengthMismatch → CopyRangeError
  destination_full : Full → CopyRangeError

-- `source_end` of `copy_range`
source_end : Range → ℕ → Result CopyRangeError ℕ
source_end r len = elim r.end [
  | none ↦ ok len
  | some e ↦ if ltb len e then err (source_range_out_of_bounds (out_of_bounds r 0 len)) else ok e
]

-- `destination_end` of `copy_range`; `none` is the panic of the sum.
destination_end : Range → ℕ → Option ℕ
destination_end r source_length = elim r.end [
  | none ↦ checked_add (unwrap_or 0 r.start) source_length
  | some e ↦ some e
]

module _ {B W S V : Type 0} (b : BufMut B W) (w : BufWriter W) (r : BufReader S V) where
  -- the match on `total_copied.cmp(&source_len)`
  pub checked_total : ℕ → Copied W S → Result Full B
  checked_total source_len (copied total d s) =
      if total == source_len then ok (b.inner d) else panic
  checked_total source_len panicked = panic
  checked_total source_len out_of_fuel = panic

  -- `copy`
  unfoldable pub copy : B → S → Result Full B
  unfolding checked_total
  copy destination source = do
    reserved ← b.reserve (r.remaining source) destination
    checked_total (r.remaining source) (copy_io w r (b.writer reserved) source none)

  -- the `assert_eq!` at the end of `copy_range`
  asserted : ℕ → Copied W S → Outcome B CopyRangeError (Unit {0})
  asserted source_length (copied total d s) =
      if total == source_length then ret tt (b.inner d) else abort
  asserted source_length panicked = abort
  asserted source_length out_of_fuel = abort

  copy_between : ℕ → ℕ → W → S → Outcome B CopyRangeError (Unit {0})
  unfolding asserted
  copy_between source_start source_length d s =
      if source_start == 0
      then asserted source_length (copy_io w r d s (some source_length))
      else elim (r.advance source_start s) [
        | ret _ s' ↦ asserted source_length (copy_io w r d s' (some source_length))
        | fail _ _ ↦ abort
        | abort ↦ abort
      ]

  copy_parts : ℕ → ℕ → ℕ → B → S → Outcome B CopyRangeError (Unit {0})
  unfolding copy_between
  copy_parts destination_start source_start source_length destination source =
      if destination_start == 0
      then copy_between source_start source_length (b.writer destination) source
      else elim (w.advance destination_start (b.writer destination)) [
        | ret _ d ↦ copy_between source_start source_length d source
        | fail e d ↦ fail (destination_full (from_io_full e)) (b.inner d)
        | abort ↦ abort
      ]

  -- `copy_range`
  unfoldable pub copy_range : B → Range → S → Range → Outcome B CopyRangeError (Unit {0})
  unfolding source_end destination_end copy_parts
  copy_range destination destination_range source source_range =
      elim (source_end source_range (r.remaining source)) [
        | err e ↦ fail e destination
        | panic ↦ abort
        | ok e ↦ or_abort (checked_sub e (unwrap_or 0 source_range.start)) (λ source_length.
            or_abort (destination_end destination_range source_length) (λ d_end.
              or_abort (checked_sub d_end (unwrap_or 0 destination_range.start))
                (λ destination_length.
                  if destination_length == source_length
                  then copy_parts (unwrap_or 0 destination_range.start)
                      (unwrap_or 0 source_range.start) source_length destination source
                  else fail
                      (length_mismatch (record {
                        destination_range = destination_range;
                        destination_length = destination_length;
                        source_range = source_range;
                        source_length = source_length;
                      }))
                      destination)))
      ]
