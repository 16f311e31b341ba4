-- ===== src/Iter.antt =====
-- The iterators of byst/src/util.rs and byst/src/buf/chunks.rs. An iterator that they wrap is a
-- parameter: a state with `next`, and with `next_back` where it is double-ended.
pub mod Peekable
pub mod Ends
pub mod Chunks
use byst.Prelude.{
  ℕ, zero, suc, ◌+◌, ◌-◌, ◌*◌, ◌/◌, ◌%◌, ◌^◌, ◌≤◌, ◌<◌, min, max, ◌≡◌, refl, sym, ap, ap₂, ◌∙◌,
  subst, ◌≢◌, ◌↔◌, ◌⊎◌, inl, inr, Bool, true, false, not, ◌&&◌, ◌||◌, Option, none, some, List, [],
  ◌∷◌, ◌++◌, map, reverse, append-nil, append_assoc, arith, ltb, leb, ◌==◌, if◌then◌else◌, ltb→lt,
  lt→ltb, le→ltb, leb→le, le→leb, lt→leb, eq→==, Bool-cases, le-or-lt, Option-cases, usize_mod,
  checked_add, checked_sub, length, get_elem?, take, drop, replicate, length-append,
  take-append-drop, take-add, drop-take, length-take, length-drop, length-replicate, drop_all,
  take_all, drop_nil, take_nil, drop-drop, take-append, drop-append, take-append_le, drop-append_le,
  take-take, eq-nil_of_length, overlay, overlay_at, length-overlay, length-overlay_at, take-front,
  drop-front, take-overlay_at, drop-overlay_at, drop-overlay, all_kept, overlay-extend,
  take-overlay_at_end, drop-overlay_at_end, take-pad, drop-pad, Result, ok, err, panic, Outcome,
  ret, fail, abort, or_panic, or_abort, ◌>>=◌, map_err, map_fail, within,
}

-- `DoubleEndedIterator`, which is an `Iterator`: a call returns an item and the state it leaves.
pub record DoubleEnded (I A : Type 0) : Type 0 where
  pub next : I → Option A × I
  pub next_back : I → Option A × I

abbrev pub Front : {I A : Type 0} → (I → List A) → Option A × I → List A → Type 0
Front items (none, i) xs = (xs ≡ []) × (items i ≡ [])
Front items (some x, i) xs = xs ≡ x ∷ items i

abbrev pub Back : {I A : Type 0} → (I → List A) → Option A × I → List A → Type 0
Back items (none, i) xs = (xs ≡ []) × (items i ≡ [])
Back items (some x, i) xs = xs ≡ items i ++ (x ∷ [])

-- What a fused double-ended iterator promises: it is a list of items, of which `next` takes the first
-- and `next_back` the last, and it stays at its end.
pub record IsDeque {I A : Type 0} (d : DoubleEnded I A) : Type 0 where
  pub items : I → List A
  pub fronts : (i : I) → Front items (d.next i) (items i)
  pub backs : (i : I) → Back items (d.next_back i) (items i)
