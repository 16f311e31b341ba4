-- ===== src/Arc/Writer.antt =====
-- `Writer` of byst/src/buf/arc_buf.rs: the cursor that writes an `ArcBufMut`. Its state is the
-- memory that the references share, with the buffer that the writer borrows.
pub mod Simulate
pub mod Steps
pub mod Frame
pub mod Apart
pub mod Halves
pub mod Copying
pub mod Resized
pub mod Contract
use byst.Prelude.{
  ℕ, ◌+◌, ◌-◌, max, ◌&&◌, Option, none, some, List, ◌++◌, map, ltb, leb, if◌then◌else◌, checked_add,
  checked_sub, length, take, drop, replicate, overlay_at, Outcome, ret, fail, abort, or_abort,
  map_fail, and_then, assert,
}
use byst.Io.Interface
use byst.Io.Interface.{BufWriter, full_at}
use byst.Buf.{Full, to_io_full}
use byst.Arc.Ref.{Memory, BufferRef, uninitialized, set_initialized_to}
use byst.Arc.Mutable.{ArcBufMut, capacity, filled}

-- `struct Writer`
pub record Writer : Type 0 where
  pub buf : ArcBufMut
  pub position : ℕ

abbrev pub State : Type 0
State = Memory × Writer

-- `Writer::new`, which `BufMut::writer` calls
abbrev pub new : ArcBufMut → Writer
new buf = record { buf = buf; position = 0 }

-- the memory with other bytes behind `pos` of a reference; a zero-sized buffer has none
unfoldable pub put : ℕ → List (Option ℕ) → Memory → BufferRef → Memory
put pos xs m r = record m { buf = if r.heap then overlay_at (r.start + pos) xs m.buf else m.buf }

-- `f(&mut uninitialized_mut()[pos..end])`; a slice out of bounds is a panic.
unfoldable pub apply_to :
    ℕ → ℕ → (List (Option ℕ) → List (Option ℕ)) → Memory → BufferRef → Option Memory
unfolding put
apply_to pos end f m r =
    let u = uninitialized m r in
    assert (leb pos end && leb end (length u))
      (some (put pos (f (take (end - pos) (drop pos u))) m r))

-- the buffer filled up to `end`, and the cursor there
unfoldable pub moved : ℕ → Writer → Writer
moved end w = record { buf = record (w.buf) { filled = max w.buf.filled end }; position = end }

-- `fill_with`
unfoldable pub fill_with :
    ℕ → (List (Option ℕ) → List (Option ℕ)) → State → Outcome State Full (Unit {0})
unfolding apply_to moved
fill_with len f (m, w) = or_abort (checked_add w.position len) (λ end.
    if leb end (capacity w.buf)
    then or_abort (apply_to w.position end f m w.buf.inner)
        (λ m1. or_abort (set_initialized_to end m1 w.buf.inner) (λ m2. ret tt (m2, moved end w)))
    else fail (record { required = len; capacity = capacity w.buf }) (m, w))

-- what is left of the filled bytes; the difference may underflow
remaining_error : {A : Type 0} → ℕ → State → Outcome State Interface.Full A
remaining_error len (m, w) =
    or_abort (checked_sub w.buf.filled w.position) (λ rest. fail (full_at len rest) (m, w))

-- `peek_chunk_mut`. A panic of `filled_mut` shows no chunk; only a buffer that counts more bytes
-- than its reference has leads there.
unfoldable pub peek_chunk_mut : State → Option (List ℕ)
peek_chunk_mut (m, w) =
    if ltb w.position w.buf.filled
    then and_then (filled m w.buf) (λ bs. some (drop w.position bs))
    else none

view_mut : ℕ → State → Outcome State Interface.Full (List ℕ)
unfolding remaining_error
view_mut len (m, w) = or_abort (checked_add w.position len) (λ end.
    if leb end w.buf.filled
    then or_abort (filled m w.buf)
        (λ bs. ret (take len (drop w.position bs)) (m, record w { position = end }))
    else remaining_error len (m, w))

peek_view_mut : ℕ → State → Outcome State Interface.Full (List ℕ)
unfolding remaining_error
peek_view_mut len (m, w) = or_abort (checked_add w.position len) (λ end.
    if leb end w.buf.filled
    then or_abort (filled m w.buf) (λ bs. ret (take len (drop w.position bs)) (m, w))
    else remaining_error len (m, w))

-- A slice from behind the end of the bytes is a panic.
rest_mut : State → Outcome State Interface.Full (List ℕ)
rest_mut (m, w) = or_abort (filled m w.buf) (λ bs.
    if leb w.position (length bs)
    then ret (drop w.position bs)
        (m, record w { position = w.position + length (drop w.position bs) })
    else abort)

peek_rest_mut : State → Outcome State Interface.Full (List ℕ)
peek_rest_mut (m, w) =
    or_abort (filled m w.buf)
      (λ bs. if leb w.position (length bs) then ret (drop w.position bs) (m, w) else abort)

-- `MaybeUninit::fill(&mut buf[n..], 0)`
abbrev pub zero_from : ℕ → List (Option ℕ) → List (Option ℕ)
zero_from n b = take n b ++ replicate (length b - n) (some 0)

unfoldable pub advance : ℕ → State → Outcome State Interface.Full (Unit {0})
advance by (m, w) = or_abort (checked_sub w.buf.filled w.position) (λ already_filled.
    if ltb already_filled by
    then map_fail to_io_full (fill_with by (zero_from already_filled) (m, w))
    else or_abort (checked_add w.position by) (λ p. ret tt (m, record w { position = p })))

unfoldable pub extend : List ℕ → State → Outcome State Interface.Full (Unit {0})
extend with s = map_fail to_io_full (fill_with (length with) (λ _. map some with) s)

-- bytes put through the borrow that `peek_chunk_mut` hands out
unfoldable pub store : List ℕ → State → State
store xs (m, w) = (put w.position (map some xs) m w.buf.inner, w)

-- `impl BufWriter for Writer`. In `remaining` the difference stops at 0, where the code would
-- panic; only a cursor behind the bytes leads there.
unfoldable pub arc_writer : BufWriter State
unfolding peek_chunk_mut store view_mut peek_view_mut rest_mut peek_rest_mut advance extend
arc_writer = record {
  peek_chunk_mut = peek_chunk_mut;
  store = store;
  view_mut = view_mut;
  peek_view_mut = peek_view_mut;
  rest_mut = rest_mut;
  peek_rest_mut = peek_rest_mut;
  advance = advance;
  remaining = λ (m, w). w.buf.filled - w.position;
  extend = extend;
}
