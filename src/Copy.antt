-- ===== src/Copy.antt =====
-- byst/src/copy.rs: `copy_io`, `copy` and `copy_range`, over any writer and any reader.
pub mod Steps
pub mod All
pub mod Amount
pub mod Overrun
pub mod Calls
use byst.Prelude.{
  ℕ, zero, suc, ◌+◌, ◌-◌, ◌*◌, ◌/◌, ◌%◌, ◌^◌, ◌≤◌, ◌<◌, min, max, ◌≡◌, refl, sym, ap, ap₂, ◌∙◌,
  subst, ◌≢◌, ◌↔◌, ◌⊎◌, inl, inr, Bool, true, false, not, ◌&&◌, ◌||◌, Option, none, some, List, [],
  ◌∷◌, ◌++◌, map, reverse, append-nil, append_assoc, arith, ltb, leb, ◌==◌, if◌then◌else◌, ltb→lt,
  lt→ltb, le→ltb, leb→le, le→leb, lt→leb, eq→==, Bool-cases, le-or-lt, Option-cases, usize_mod,
  checked_add, checked_sub, length, get_elem?, take, drop, replicate, length-append,
  take-append-drop, length-take, length-drop, length-replicate, drop_all, take_all, drop_nil,
  take_nil, drop-drop, take-append, drop-append, take-append_le, drop-append_le, take-take,
  eq-nil_of_length, Result, ok, err, panic, Outcome, ret, fail, abort, or_panic, or_abort, ◌>>=◌,
  map_err, map_fail, within,
}
use byst.Io.Interface.{End, Full, BufReader, BufWriter}

-- What a call of `copy_io` comes to: the count, and the writer and the reader that it leaves.
pub data Copied (W S : Type 0) : Type 0 where
  copied : ℕ → W → S → Copied W S
  panicked : Copied W S
  out_of_fuel : Copied W S

-- One round of the loop: it goes on with the count and the amount left, stops, or panics.
pub data Round (W S : Type 0) : Type 0 where
  next : ℕ → Option ℕ → W → S → Round W S
  stop : ℕ → W → S → Round W S
  panics : Round W S

-- the loop's condition, `amount.map_or(true, |n| n > 0)`
unfoldable pub wanted : Option ℕ → Bool
wanted none = true
wanted (some n) = ltb 0 n

-- `n` cut down to the amount, and what is left of that
pub capped : Option ℕ → ℕ → ℕ
capped none n = n
capped (some a) n = min n a

pub left_of : Option ℕ → ℕ → Option ℕ
left_of none n = none
left_of (some a) n = some (a - n)

module _ {W S V : Type 0} (w : BufWriter W) (r : BufReader S V) where
  -- Both sides step over the `n` bytes just copied.
  pub step_over : ℕ → ℕ → Option ℕ → W → S → Round W S
  step_over n total amount d s = elim (w.advance n d) [
    | ret _ d' ↦ elim (r.advance n s) [
      | ret _ s' ↦ next (total + n) amount d' s'
      | fail _ _ ↦ panics
      | abort ↦ panics
    ]
    | fail _ _ ↦ panics
    | abort ↦ panics
  ]

  -- the arm `(Some(dest_chunk), Some(src_chunk))`
  pub overwrite_round : ℕ → Option ℕ → List ℕ → List ℕ → W → S → Round W S
  unfolding step_over capped left_of
  overwrite_round total amount dest src d s =
      let n = capped amount (min (length dest) (length src)) in
      step_over n total (left_of amount n) (w.store (take n src) d) s

  -- the arm `(None, Some(src_chunk))`; the chunk is written whole, whatever the amount
  pub extend_round : ℕ → Option ℕ → List ℕ → W → S → Round W S
  extend_round total amount src d s = elim (w.extend src d) [
    | ret _ d' ↦ elim (r.advance (length src) s) [
      | ret _ s' ↦ next (total + length src) amount d' s'
      | fail _ _ ↦ panics
      | abort ↦ panics
    ]
    | fail e d' ↦ stop (total + e.written) d' s
    | abort ↦ panics
  ]

  -- the loop's body
  unfoldable pub round : ℕ → Option ℕ → W → S → Round W S
  unfolding overwrite_round extend_round
  round total amount d s = elim (r.peek_chunk s) [
    | none ↦ stop total d s
    | some src ↦ elim (w.peek_chunk_mut d) [
      | some dest ↦ overwrite_round total amount dest src d s
      | none ↦ extend_round total amount src d s
    ]
  ]

  unfoldable pub copy_loop : ℕ → ℕ → Option ℕ → W → S → Copied W S
  copy_loop zero total amount d s = out_of_fuel
  copy_loop (suc fuel) total amount d s = elim (wanted amount) [
    | false ↦ copied total d s
    | true ↦ elim (round total amount d s) [
      | next total' amount' d' s' ↦ copy_loop fuel total' amount' d' s'
      | stop total' d' s' ↦ copied total' d' s'
      | panics ↦ panicked
    ]
  ]

  -- `copy_io`, with fuel for as many rounds as the reader has bytes, and the last.
  unfoldable pub copy_io : W → S → Option ℕ → Copied W S
  unfolding copy_loop
  copy_io d s amount = copy_loop (suc (r.remaining s)) 0 amount d s
