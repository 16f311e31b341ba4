-- ===== src/Bytes.antt =====
-- byst/src/bytes: readers behind a trait object. The implementation in the box is a parameter, a
-- record of the operations of `BytesImpl` on its state; its views are of its own type, as they are
-- for slices, `Static` and `ArcBuf`.
pub mod Erased
pub mod Owned
pub mod Writers
use byst.Prelude.{
  ℕ, ◌+◌, Option, none, some, List, length, Result, ok, err, panic, Outcome, ret, fail, abort,
  map_err, within,
}
use byst.Range.{Range, RangeOutOfBounds, range, slice_get}
use byst.Io.Interface.{End, end_at, BufReader, Seek}
use byst.Io.Slice.{slice_reader}
use byst.Buf.Empty
use byst.Buf.Empty.{Empty, empty, empty_reader}

-- `trait BytesImpl`, with `Length::len`
pub record BytesImpl (S : Type 0) : Type 0 where
  pub clone : S → S
  pub peek_chunk : S → Option (List ℕ)
  pub view : Range → S → Result RangeOutOfBounds S
  pub advance : ℕ → S → Outcome S End (Unit {0})
  pub len : S → ℕ

-- `impl BytesImpl for &[u8]`, which `Static` is too
unfoldable pub slice_impl : BytesImpl (List ℕ)
slice_impl = record {
  clone = λ s. s;
  peek_chunk = slice_reader.peek_chunk;
  view = slice_get;
  advance = slice_reader.advance;
  len = λ s. length s;
}

-- `impl BytesImpl for Empty`
unfoldable pub empty_impl : BytesImpl Empty
empty_impl = record {
  clone = λ s. s;
  peek_chunk = λ _. none;
  view = λ range _. Empty.view range;
  advance = empty_reader.advance;
  len = Empty.len;
}

-- `struct View`: a box with the implementation, or with `Empty`, which `Default` is and
-- `mem::take` leaves
pub data View (S : Type 0) : Type 0 where
  boxed : S → View S
  default : View S

-- what an operation of the implementation returns, in a box
abbrev pub boxed_view : {S E : Type 0} → Result E S → Result E (View S)
boxed_view (ok s) = ok (boxed s)
boxed_view (err e) = err e
boxed_view panic = panic

abbrev default_view : {S E : Type 0} → Result E Empty → Result E (View S)
default_view (ok _) = ok default
default_view (err e) = err e
default_view panic = panic

abbrev in_default : {S : Type 0} → Outcome Empty End (Unit {0}) → Outcome (View S) End (Unit {0})
in_default (ret a _) = ret a default
in_default (fail e _) = fail e default
in_default abort = abort

module _ {S : Type 0} (i : BytesImpl S) where
  -- the calls of the trait object
  abbrev pub len : View S → ℕ
  len (boxed s) = i.len s
  len default = Empty.len empty

  abbrev pub clone : View S → View S
  clone (boxed s) = boxed (i.clone s)
  clone default = default

  unfoldable pub peek_chunk : View S → Option (List ℕ)
  peek_chunk (boxed s) = i.peek_chunk s
  peek_chunk default = none

  unfoldable pub advance : ℕ → View S → Outcome (View S) End (Unit {0})
  advance by (boxed s) = within boxed (i.advance by s)
  advance by default = in_default (empty_impl.advance by empty)

  -- `Buf::view`
  unfoldable pub view_of : Range → View S → Result RangeOutOfBounds (View S)
  view_of range (boxed s) = boxed_view (i.view range s)
  view_of range default = default_view (empty_impl.view range empty)

  -- `BufReader::peek_view`
  unfoldable pub peek_view : ℕ → View S → Result End (View S)
  unfolding view_of
  peek_view length v =
      map_err (λ _. end_at length (len v)) (view_of (range (some 0) (some (0 + length))) v)

  -- the view, behind a step that is not to fail
  abbrev pub reached : View S → Outcome (View S) End (Unit {0}) → Outcome (View S) End (View S)
  reached view (ret _ v) = ret view v
  reached view (fail _ _) = abort
  reached view abort = abort

  abbrev pub viewed : Result End (View S) → ℕ → View S → Outcome (View S) End (View S)
  viewed (ok view) length v = reached view (advance length v)
  viewed (err e) length v = fail e v
  viewed panic length v = abort

  -- `BufReader::view`
  unfoldable pub view : ℕ → View S → Outcome (View S) End (View S)
  unfolding peek_view advance
  view length v = viewed (peek_view length v) length v

  -- `impl BufReader for View`, to which the one for `Bytes` forwards
  unfoldable pub view_reader : BufReader (View S) (View S)
  unfolding peek_chunk view peek_view advance
  view_reader = record {
    peek_chunk = peek_chunk;
    view = view;
    peek_view = peek_view;
    rest = λ v. some (v, default);
    peek_rest = λ v. some (clone v);
    advance = advance;
    remaining = len;
    view_len = len;
  }

  -- `impl Seek for View`
  abbrev pub view_seek : Seek (View S) (View S)
  view_seek = record { tell = clone; seek = λ position v. (v, clone position) }
