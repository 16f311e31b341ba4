-- ===== src/Buf/Empty.antt =====
-- byst/src/buf/empty.rs: the buffer without bytes, which is its own view, reader and writer.
pub mod Contract
use byst.Prelude.{
  ℕ, Bool, true, ◌&&◌, none, some, ◌==◌, if◌then◌else◌, length, Result, ok, err, panic, Outcome,
  ret, fail, abort, ◌>>=◌, [],
}
use byst.Range.{Range, RangeOutOfBounds, unwrap_or, out_of_bounds}
use byst.Io.Interface
use byst.Io.Interface.{End, BufReader, BufWriter, Reader, Seek, end_at, full_at}
use byst.Arc.Mutable.{IndexOutOfBounds}
use byst.Buf.{Full, SizeLimit, exact}

-- `struct Empty`
pub data Empty : Type 0 where
  empty : Empty

-- `check_range`
unfoldable pub check_range : Range → Result RangeOutOfBounds (Unit {0})
check_range range =
    if unwrap_or 0 range.start == 0 && (unwrap_or 0 range.end == 0)
    then ok tt
    else err (out_of_bounds range 0 0)

-- `check_length_write` and `check_length_read`
unfoldable pub check_length_write : ℕ → Result Interface.Full (Unit {0})
check_length_write length = if length == 0 then ok tt else err (full_at length 0)

unfoldable pub check_length_read : ℕ → Result End (Unit {0})
check_length_read length = if length == 0 then ok tt else err (end_at length 0)

-- a checked call through `&mut self`, which changes nothing
abbrev pub call : {E A : Type 0} → A → Result E (Unit {0}) → Outcome Empty E A
call a (ok _) = ret a empty
call a (err e) = fail e empty
call a panic = abort

-- `Buf::view` and `BufMut::view_mut`
unfoldable pub view : Range → Result RangeOutOfBounds Empty
unfolding check_range
view range = check_range range >>= λ _. ok empty

-- `BufMut::reserve` and `BufMut::size_limit`
unfoldable pub reserve : ℕ → Result Full (Unit {0})
reserve size = if size == 0 then ok tt else err (record { required = size; capacity = 0 })

abbrev pub size_limit : SizeLimit
size_limit = exact 0

-- `Length::len` and `Length::is_empty`
abbrev pub len : Empty → ℕ
len _ = 0

abbrev pub is_empty : Empty → Bool
is_empty _ = true

-- `impl BufReader for Empty`
unfoldable pub empty_reader : BufReader Empty Empty
unfolding check_length_read
empty_reader = record {
  peek_chunk = λ _. none;
  view = λ length _. call empty (check_length_read length);
  peek_view = λ length _. check_length_read length >>= λ _. ok empty;
  rest = λ s. some (empty, s);
  peek_rest = λ _. some empty;
  advance = λ by _. call tt (check_length_read by);
  remaining = λ _. 0;
  view_len = len;
}

-- `impl Seek for Empty`
abbrev pub empty_seek : Seek Empty Empty
empty_seek = record { tell = λ _. empty; seek = λ _ s. (empty, s) }

-- `impl BufWriter for Empty`; there is no chunk into which bytes could be put.
unfoldable pub empty_writer : BufWriter Empty
unfolding check_length_write
empty_writer = record {
  peek_chunk_mut = λ _. none;
  store = λ _ w. w;
  view_mut = λ length _. call [] (check_length_write length);
  peek_view_mut = λ length _. call [] (check_length_write length);
  rest_mut = λ w. ret [] w;
  peek_rest_mut = λ w. ret [] w;
  advance = λ by _. call tt (check_length_write by);
  remaining = λ _. 0;
  extend = λ with _. call tt (check_length_write (length with));
}

-- a checked call of the reader, which leaves the destination as it is
abbrev pub call_into : {D E A : Type 0} → D → A → Result E (Unit {0}) → Outcome (Empty × D) E A
call_into dest a (ok _) = ret a (empty, dest)
call_into dest a (err e) = fail e (empty, dest)
call_into dest a panic = abort

-- `impl Reader for Empty`
unfoldable pub empty_read : {D : Type 0} → Reader Empty D End
unfolding check_length_read
empty_read = record {
  read_into = λ _ (s, dest). ret 0 (s, dest);
  read_into_exact = λ length (_, dest). call_into dest tt (check_length_read length);
  skip = λ amount _. call tt (check_length_read amount);
  from_end = λ e. e;
  amount_read = λ e. e.read;
}

-- `impl PartialEq for Empty`, for a buffer of a length
abbrev pub eq : ℕ → Bool
eq other = other == 0

-- `BytesMutImpl::split_at`
unfoldable pub split_at : ℕ → Result IndexOutOfBounds Empty
split_at at = if at == 0 then ok empty else err (record { required = at; bounds = (0, 0) })
