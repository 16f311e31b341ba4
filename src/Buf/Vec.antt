-- ===== src/Buf/Vec.antt =====
-- `Vec<u8>` as a buffer, and its writer `VecWriter`, of byst/src/buf/mod.rs. A vector grows without
-- limit here; the one bound is that of its cursor, a `usize`.
pub mod Contract
use byst.Prelude.{
  ℕ, zero, suc, ◌+◌, ◌-◌, ◌*◌, ◌/◌, ◌%◌, ◌^◌, ◌≤◌, ◌<◌, min, max, ◌≡◌, refl, sym, ap, ap₂, ◌∙◌,
  subst, ◌≢◌, ◌↔◌, ◌⊎◌, inl, inr, Bool, true, false, not, ◌&&◌, ◌||◌, Option, none, some, List, [],
  ◌∷◌, ◌++◌, map, reverse, append-nil, append_assoc, arith, ltb, leb, ◌==◌, if◌then◌else◌, ltb→lt,
  lt→ltb, le→ltb, leb→le, le→leb, lt→leb, eq→==, Bool-cases, le-or-lt, Option-cases, usize_mod,
  checked_add, checked_sub, length, get_elem?, take, drop, replicate, length-append,
  take-append-drop, take-add, drop-take, length-take, length-drop, length-replicate, drop_all,
  take_all, drop_nil, take_nil, drop-drop, take-append, drop-append, take-append_le, drop-append_le,
  take-take, eq-nil_of_length, overlay, overlay_at, length-overlay, length-overlay_at, take-front,
  drop-front, take-overlay_at, drop-overlay_at, drop-overlay, all_kept, overlay-extend,
  take-overlay_at_end, drop-overlay_at_end, Result, ok, err, panic, Outcome, ret, fail, abort,
  or_panic, or_abort, ◌>>=◌, map_err, map_fail, within,
}
use byst.Io.Interface.{BufWriter, Full, full_at}

-- `struct VecWriter`; the vector that it borrows is a part of its state.
pub record VecWriter : Type 0 where
  pub vec : List ℕ
  pub position : ℕ

-- `VecWriter::new`
abbrev pub vec_writer_at : List ℕ → VecWriter
vec_writer_at vec = record { vec = vec; position = 0 }

remaining_error : {A : Type 0} → ℕ → VecWriter → Outcome VecWriter Full A
remaining_error len w =
    or_abort (checked_sub (length w.vec) w.position) (λ rest. fail (full_at len rest) w)

pub peek_chunk_mut : VecWriter → Option (List ℕ)
peek_chunk_mut w = if ltb w.position (length w.vec) then some (drop w.position w.vec) else none

view_mut : ℕ → VecWriter → Outcome VecWriter Full (List ℕ)
unfolding remaining_error
view_mut len w = or_abort (checked_add w.position len) (λ end.
    if leb end (length w.vec)
    then ret (take len (drop w.position w.vec)) (record w { position = end })
    else remaining_error len w)

peek_view_mut : ℕ → VecWriter → Outcome VecWriter Full (List ℕ)
unfolding remaining_error
peek_view_mut len w = or_abort (checked_add w.position len) (λ end.
    if leb end (length w.vec)
    then ret (take len (drop w.position w.vec)) w
    else remaining_error len w)

-- A slice from behind the end of the vector is a panic.
rest_mut : VecWriter → Outcome VecWriter Full (List ℕ)
rest_mut w =
    if leb w.position (length w.vec)
    then ret (drop w.position w.vec) (record w { position = length w.vec })
    else abort

peek_rest_mut : VecWriter → Outcome VecWriter Full (List ℕ)
peek_rest_mut w = if leb w.position (length w.vec) then ret (drop w.position w.vec) w else abort

-- The difference is `saturating_sub`.
pub advance : ℕ → VecWriter → Outcome VecWriter Full (Unit {0})
advance by w =
    or_abort (checked_add w.position by)
      (λ end. ret tt (record { vec = w.vec ++ replicate (end - length w.vec) 0; position = end }))

pub extend : List ℕ → VecWriter → Outcome VecWriter Full (Unit {0})
extend with w = or_abort (checked_sub (length w.vec) w.position) (λ rest.
    or_abort (checked_add w.position (length with)) (λ end.
      let n_overwrite = min rest (length with) in
      ret tt (record {
        vec = overlay_at w.position (take n_overwrite with) w.vec ++ drop n_overwrite with;
        position = end;
      })))

-- bytes put through the borrow that `peek_chunk_mut` hands out
pub store : List ℕ → VecWriter → VecWriter
store xs w = record w { vec = overlay_at w.position xs w.vec }

-- `VecWriter::remaining`, which is the length of the whole vector
remaining : VecWriter → ℕ
remaining w = length w.vec

-- `impl BufWriter for VecWriter`
unfoldable pub vec_writer : BufWriter VecWriter
unfolding peek_chunk_mut store view_mut peek_view_mut rest_mut peek_rest_mut advance remaining
    extend
vec_writer = record {
  peek_chunk_mut = peek_chunk_mut;
  store = store;
  view_mut = view_mut;
  peek_view_mut = peek_view_mut;
  rest_mut = rest_mut;
  peek_rest_mut = peek_rest_mut;
  advance = advance;
  remaining = remaining;
  extend = extend;
}
