-- ===== src/Arc/Shared.antt =====
-- `ArcBuf` of byst/src/buf/arc_buf.rs: a reference that reads. The state is the memory and the
-- reference; a clone or a view is a reference with the memory that making it leaves.
pub mod Cursor
use byst.Prelude.{
  ◌>>=◌, ℕ, Option, none, some, List, leb, ◌==◌, if◌then◌else◌, length, Result, ok, err, panic,
  Outcome, ret, fail, abort, or_panic, or_abort, map_err,
}
use byst.Range.{Range, RangeOutOfBounds, range, indices_checked_in}
use byst.Io.Interface.{End, end_at, BufReader, Seek}
use byst.Buf.Fill.{assume_init}
use byst.Arc.Ref
use byst.Arc.Ref.{Memory, BufferRef, zero_sized, uninitialized, clone, shrink}

abbrev pub ArcBuf : Type 0
ArcBuf = Memory × BufferRef

abbrev pub len : ArcBuf → ℕ
len (_, r) = Ref.len r

-- `bytes`
unfoldable pub bytes : ArcBuf → List ℕ
bytes (m, r) = assume_init (uninitialized m r)

-- `Buf::view`
unfoldable pub view_of : Range → ArcBuf → Result RangeOutOfBounds ArcBuf
view_of range (m, r) = do
  (start, end) ← indices_checked_in range 0 (Ref.len r)
  or_panic (shrink start end (clone m r) r) ok

-- `Clone::clone`, which `Buf::reader`, `peek_rest` and `tell` are too
unfoldable pub cloned : ArcBuf → ArcBuf
cloned (m, r) = (clone m r, r)

unfoldable pub peek_chunk : ArcBuf → Option (List ℕ)
unfolding bytes
peek_chunk b = if len b == 0 then none else some (bytes b)

-- `BufReader::peek_view`
unfoldable pub peek_view : ℕ → ArcBuf → Result End ArcBuf
unfolding view_of
peek_view length b = map_err (λ _. end_at length (len b)) (view_of (range (some 0) (some length)) b)

-- the step over the bytes that a view shows, in the memory that making it left
stepped : ℕ → ArcBuf → Result End ArcBuf → Outcome ArcBuf End ArcBuf
stepped length (_, r) (ok (m, v)) = or_abort (shrink length (Ref.len r) m r) (λ b. ret (m, v) b)
stepped length b (err e) = fail e b
stepped length b panic = abort

-- `BufReader::view`
unfoldable pub view : ℕ → ArcBuf → Outcome ArcBuf End ArcBuf
unfolding stepped peek_view
view length b = stepped length b (peek_view length b)

-- `rest`: `mem::take`
unfoldable pub rest : ArcBuf → ArcBuf × ArcBuf
rest (m, r) = ((m, r), (m, zero_sized))

unfoldable pub advance : ℕ → ArcBuf → Outcome ArcBuf End (Unit {0})
advance by (m, r) =
    if leb by (Ref.len r)
    then or_abort (shrink by (Ref.len r) m r) (λ b. ret tt b)
    else fail (end_at by (Ref.len r)) (m, r)

-- `impl BufReader for ArcBuf`
unfoldable pub arc_reader : BufReader ArcBuf ArcBuf
unfolding peek_chunk view peek_view rest cloned advance
arc_reader = record {
  peek_chunk = peek_chunk;
  view = view;
  peek_view = peek_view;
  rest = λ b. some (rest b);
  peek_rest = λ b. some (cloned b);
  advance = advance;
  remaining = len;
  view_len = len;
}
