-- ===== src/Equal.antt =====
-- `buf_eq` of byst/src/util.rs: two buffers are compared chunk by chunk, whatever their chunks are.
pub mod Bytes
use byst.Prelude.{
  ℕ, zero, suc, min, Bool, true, false, ◌&&◌, Option, none, some, List, ◌∷◌, ◌==◌, if◌then◌else◌,
  length, take, Outcome, ret, [],
}
use byst.Io.Interface.{End, BufReader}
use byst.Io.Laws.{Peeks, IsCursor}

-- `==` of slices
abbrev pub slice_eq : List ℕ → List ℕ → Bool
slice_eq [] [] = true
slice_eq [] (y ∷ ys) = false
slice_eq (x ∷ xs) [] = false
slice_eq (x ∷ xs) (y ∷ ys) = (x == y) && slice_eq xs ys

-- one round of the loop: the answer, the readers with which to go on, or a panic
pub data Round (S T : Type 0) : Type 0 where
  answer : Bool → Round S T
  again : S → T → Round S T
  stop : Round S T

-- Both readers have advanced; an error of `advance` is a panic.
abbrev pub both : {S T : Type 0} → Outcome S End (Unit {0}) → Outcome T End (Unit {0}) → Round S T
both (ret _ s) (ret _ t) = again s t
both _ _ = stop

abbrev pub after_round : {S T : Type 0} → (S → T → Option Bool) → Round S T → Option Bool
after_round f (answer b) = some b
after_round f (again s t) = f s t
after_round f stop = none

module _ {S V T U : Type 0} (l : BufReader S V) (r : BufReader T U) where
  unfoldable pub round : Option (List ℕ) → Option (List ℕ) → S → T → Round S T
  round none none s t = answer true
  round none (some b) s t = stop
  round (some a) none s t = stop
  round (some a) (some b) s t =
      let n = min (length a) (length b) in
      if slice_eq (take n a) (take n b) then both (l.advance n s) (r.advance n t) else answer false

  -- the loop, on fuel; `none` is a panic, or the end of the fuel
  unfoldable pub compare_chunks : ℕ → S → T → Option Bool
  unfolding round
  compare_chunks zero s t = none
  compare_chunks (suc fuel) s t =
      after_round (compare_chunks fuel) (round (l.peek_chunk s) (r.peek_chunk t) s t)

  -- `buf_eq` of buffers of the lengths `left_len` and `right_len`, by their readers
  unfoldable pub buf_eq : ℕ → ℕ → ℕ → S → T → Option Bool
  unfolding compare_chunks
  buf_eq fuel left_len right_len s t =
      if left_len == right_len
      then if left_len == 0 then some true else compare_chunks fuel s t
      else some false
