-- ===== src/Arc/Ref.antt =====
-- `BufferRef` of byst/src/buf/arc_buf.rs: a range of the allocation that it shares. The allocation is
-- passed along; a panic is `none`, which sums that overflow also are.
use byst.Prelude.{
  ℕ, zero, suc, ◌-◌, max, Bool, true, false, ◌&&◌, ◌||◌, Option, some, List, leb, ◌==◌,
  if◌then◌else◌, checked_add, replicate, overlay_at, between, and_then, assert, [],
}
use byst.Buf.Fill.{assume_init}
use byst.Arc.Count.{new, increment, decrement, RefCount, static, from_atomic}

-- `Buffer` and its `MetaData`: the bytes behind the pointer, how many of them the tail has
-- initialised, the word of the count, and whether it is deallocated.
pub record Memory : Type 0 where
  pub buf : List (Option ℕ)
  pub initialized : ℕ
  pub word : ℕ
  pub freed : Bool

-- `Buffer::new` for a size that is not 0
unfoldable pub allocate : List (Option ℕ) → Bool → Memory
allocate buf reclaim = record { buf = buf; initialized = 0; word = new 1 reclaim; freed = false }

-- `struct BufferRef`; `heap` is false for a zero-sized buffer, whose `meta_data` is null.
pub record BufferRef : Type 0 where
  pub heap : Bool
  pub start : ℕ
  pub end : ℕ
  pub tail : Bool

-- `BufferRef::default`
abbrev pub zero_sized : BufferRef
zero_sized = record { heap = false; start = 0; end = 0; tail = false }

-- `from_buf`, for `Buffer::new` of a size
unfoldable pub from_buf : ℕ → BufferRef
from_buf zero = zero_sized
from_buf (suc n) = record { heap = true; start = 0; end = suc n; tail = true }

-- `uninitialized`; a zero-sized buffer has no bytes.
unfoldable pub uninitialized : Memory → BufferRef → List (Option ℕ)
uninitialized m r = if r.heap then between r.start r.end m.buf else []

unfoldable pub in_bounds : Memory → BufferRef → Bool
in_bounds m r = leb r.start m.initialized && leb m.initialized r.end

-- `initialized_end`
unfoldable pub initialized_end : Memory → BufferRef → Option ℕ
unfolding in_bounds
initialized_end m r = if r.tail then assert (in_bounds m r) (some m.initialized) else some r.end

-- `set_initialized_to`
unfoldable pub set_initialized_to : ℕ → Memory → BufferRef → Option Memory
unfolding in_bounds
set_initialized_to to m r = and_then (checked_add r.start to) (λ to. assert (leb to r.end) (
    if r.tail
    then assert (in_bounds m r) (some (record m { initialized = max m.initialized to }))
    else some m))

-- `initialized`
unfoldable pub initialized : Memory → BufferRef → Option (List ℕ)
unfolding initialized_end
initialized m r =
    and_then (initialized_end m r)
      (λ end. some (if r.heap then assume_init (between r.start end m.buf) else []))

-- `fully_initialize`
unfoldable pub fully_initialize : Memory → BufferRef → Option Memory
unfolding in_bounds
fully_initialize m r =
    if r.tail
    then assert (in_bounds m r) (
        some (record m {
          buf = overlay_at m.initialized (replicate (r.end - m.initialized) (some 0)) m.buf;
          initialized = r.end;
        }))
    else some m

abbrev pub len : BufferRef → ℕ
len r = r.end - r.start

-- `ref_count`
unfoldable pub ref_count : Memory → BufferRef → RefCount
ref_count m r = if r.heap then from_atomic m.word else static

-- `clone`; the new reference is the old one.
unfoldable pub clone : Memory → BufferRef → Memory
clone m r = if r.heap then record m { word = increment m.word } else m

-- `drop`
unfoldable pub drop_ref : Memory → BufferRef → Option Memory
drop_ref m r =
    if r.heap
    then and_then (decrement m.word).0
        (λ must. some (record m { word = (decrement m.word).1; freed = m.freed || must }))
    else some m

-- `split_at`: what it returns, then the memory and the reference that it leaves
unfoldable pub split_at : ℕ → Memory → BufferRef → Option (BufferRef × Memory × BufferRef)
unfolding clone
split_at at m r = and_then (checked_add at r.start) (λ split_offset.
    assert (leb split_offset r.end) (
      if at == r.start
      then some (zero_sized, m, r)
      else if at == r.end
      then some (r, m, zero_sized)
      else some (
        record r { end = split_offset; tail = false },
        clone m r,
        record r { start = split_offset },
      )))

-- `shrink`
unfoldable pub shrink : ℕ → ℕ → Memory → BufferRef → Option (Memory × BufferRef)
unfolding drop_ref
shrink start end m r = and_then (checked_add r.start start) (λ new_start.
    and_then (checked_add r.start end) (λ new_end.
      assert (leb r.start new_start && leb new_end r.end && leb new_start new_end) (
        if new_start == new_end
        then and_then (drop_ref m r) (λ m'. some (m', zero_sized))
        else some (m, record r { start = new_start; end = new_end }))))
