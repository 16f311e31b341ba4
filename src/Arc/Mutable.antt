-- ===== src/Arc/Mutable.antt =====
-- `ArcBufMut` of byst/src/buf/arc_buf.rs: the one reference that writes a part of the allocation,
-- with the number of bytes that it has filled.
pub mod Split
use byst.Prelude.{
  ℕ, ◌-◌, Bool, true, false, ◌||◌, Option, none, some, List, ltb, leb, ◌==◌, if◌then◌else◌,
  checked_sub, length, take, Result, ok, err, or_panic, and_then, assert,
}
use byst.Arc.Count
use byst.Arc.Count.{make_unreclaimable}
use byst.Range.{Range, RangeOutOfBounds, slice_get}
use byst.Buf.{Full, SizeLimit, exact, reserve_fixed}
use byst.Buf.Fill.{assume_init}
use byst.Arc.Ref
use byst.Arc.Ref.{
  Memory, BufferRef, zero_sized, uninitialized, allocate, from_buf, initialized_end, shrink,
}

-- `struct ArcBufMut`
pub record ArcBufMut : Type 0 where
  pub inner : BufferRef
  pub filled : ℕ

-- `ArcBufMut::default`
abbrev pub empty : ArcBufMut
empty = record { inner = zero_sized; filled = 0 }

-- `struct IndexOutOfBounds` of byst/src/lib.rs
pub record IndexOutOfBounds : Type 0 where
  pub required : ℕ
  pub bounds : ℕ × ℕ

-- `new`, and `new_reclaimable` beside its `Reclaim`; the allocator gives the bytes `buf`.
unfoldable pub new : List (Option ℕ) → Bool → Memory × ArcBufMut
new buf reclaim = (allocate buf reclaim, record { inner = from_buf (length buf); filled = 0 })

abbrev pub capacity : ArcBufMut → ℕ
capacity b = Ref.len b.inner

-- `filled`, and `filled_mut` for writing; a slice from behind the end is a panic.
unfoldable pub filled : Memory → ArcBufMut → Option (List ℕ)
filled m b =
    let u = uninitialized m b.inner in
    assert (leb b.filled (length u)) (some (assume_init (take b.filled u)))

-- `freeze`
unfoldable pub freeze : Memory → ArcBufMut → Option (Memory × BufferRef)
freeze m b = shrink 0 b.filled m b.inner

-- the two halves that `BufferRef::split_at` leaves, with what is filled of each
halves : ℕ → ℕ → BufferRef × Memory × BufferRef → ArcBufMut × Memory × ArcBufMut
halves at filled (left, m, right) =
    (record { inner = left; filled = at }, m, record { inner = right; filled = filled - at })

-- `split_at`: what it returns, the memory and the buffer that it leaves
unfoldable pub split_at :
    ℕ → Memory → ArcBufMut → Result IndexOutOfBounds (ArcBufMut × Memory × ArcBufMut)
unfolding halves
split_at at m b =
    if at == 0
    then ok (empty, m, b)
    else if at == b.filled
    then ok (b, m, empty)
    else if ltb at b.filled
    then or_panic (Ref.split_at at m b.inner) (λ h. ok (halves at b.filled h))
    else err (record { required = at; bounds = (0, b.filled) })

-- `set_filled_to`
unfoldable pub set_filled_to : ℕ → Memory → ArcBufMut → Option ArcBufMut
set_filled_to to m b = and_then (initialized_end m b.inner) (λ end.
    and_then (checked_sub end b.inner.start)
      (λ n. assert (leb to n) (some (record b { filled = to }))))

-- `clear`
unfoldable pub clear : ArcBufMut → ArcBufMut
clear b = record b { filled = 0 }

-- `Buf::view`
unfoldable pub view : Range → Memory → ArcBufMut → Result RangeOutOfBounds (List ℕ)
unfolding filled
view range m b = or_panic (filled m b) (slice_get range)

-- `BufMut::reserve` and `BufMut::size_limit`
unfoldable pub reserve : ArcBufMut → ℕ → Result Full (Unit {0})
reserve b size = reserve_fixed (capacity b) size

abbrev pub size_limit : ArcBufMut → SizeLimit
size_limit b = exact (capacity b)

-- `Reclaim::try_reclaim`; `heap` is false for the `Reclaim` of a zero-sized buffer.
unfoldable pub try_reclaim : Bool → Memory → Option ArcBufMut × Memory
try_reclaim false m = (some empty, m)
try_reclaim true m = (
  if (Count.try_reclaim m.word).0
      then some (record {
        inner = record { heap = true; start = 0; end = length m.buf; tail = true };
        filled = 0;
      })
      else none,
  record m { word = (Count.try_reclaim m.word).1 },
)

-- `Reclaim::can_reclaim`
unfoldable pub can_reclaim : Bool → Memory → Bool
can_reclaim false m = true
can_reclaim true m = Count.can_reclaim m.word

-- `Reclaim::drop`
unfoldable pub drop_reclaim : Bool → Memory → Memory
drop_reclaim false m = m
drop_reclaim true m = record m {
  word = (make_unreclaimable m.word).1;
  freed = m.freed || (make_unreclaimable m.word).0;
}
