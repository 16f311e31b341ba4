-- ===== src/Buf.antt =====
-- byst/src/buf/mod.rs: errors and limits of buffers. The modules below are the buffers.
pub mod Fill
pub mod Vec
pub mod Partial
pub mod Empty
use byst.Prelude.{
  ℕ, zero, suc, ◌+◌, ◌-◌, ◌*◌, ◌/◌, ◌%◌, ◌^◌, ◌≤◌, ◌<◌, min, max, ◌≡◌, refl, sym, ap, ap₂, ◌∙◌,
  subst, ◌≢◌, ◌↔◌, ◌⊎◌, inl, inr, Bool, true, false, not, ◌&&◌, ◌||◌, Option, none, some, List, [],
  ◌∷◌, ◌++◌, map, reverse, append-nil, append_assoc, arith, ltb, leb, ◌==◌, if◌then◌else◌, ltb→lt,
  lt→ltb, le→ltb, leb→le, le→leb, lt→leb, eq→==, Bool-cases, le-or-lt, Option-cases, usize_mod,
  checked_add, checked_sub, length, get_elem?, take, drop, replicate, length-append,
  take-append-drop, take-add, length-take, length-drop, length-replicate, drop_all, take_all,
  drop_nil, take_nil, drop-drop, take-append, drop-append, take-append_le, drop-append_le,
  take-take, eq-nil_of_length, overlay, overlay_at, length-overlay, length-overlay_at, take-front,
  drop-front, take-overlay_at, drop-overlay_at, drop-overlay, all_kept, overlay-extend, Result, ok,
  err, panic, Outcome, ret, fail, abort, or_panic, or_abort, ◌>>=◌, map_err, map_fail, within,
}
use byst.Io.Interface

-- `struct Full` of byst/src/buf/mod.rs
pub record Full : Type 0 where
  pub required : ℕ
  pub capacity : ℕ

-- `impl From<crate::io::Full> for Full`
unfoldable pub from_io_full : Interface.Full → Full
from_io_full e = record { required = e.requested; capacity = e.remaining + e.written }

-- `impl From<crate::buf::Full> for Full` of byst/src/io/write.rs
unfoldable pub to_io_full : Full → Interface.Full
to_io_full e = record { written = 0; requested = e.required; remaining = e.capacity }

-- `enum SizeLimit`
pub data SizeLimit : Type 0 where
  unknown : SizeLimit
  unlimited : SizeLimit
  exact : ℕ → SizeLimit

-- `reserve` of a buffer that cannot grow: slices, arrays and the partially initialised buffers
unfoldable pub reserve_fixed : ℕ → ℕ → Result Full (Unit {0})
reserve_fixed capacity size =
    if ltb capacity size then err (record { required = size; capacity = capacity }) else ok tt

-- `trait BufMut`: `inner` is the buffer at the end of the writer's borrow.
pub record BufMut (B W : Type 0) : Type 0 where
  pub reserve : ℕ → B → Result Full B
  pub writer : B → W
  pub inner : W → B
