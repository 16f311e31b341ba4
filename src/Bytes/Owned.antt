-- ===== src/Bytes/Owned.antt =====
-- `Bytes` of byst/src/bytes/bytes.rs, which wraps a view and hands every call on to it.
use byst.Prelude.{
  ℕ, ◌≤◌, ◌<◌, ◌≡◌, ap, Option, none, some, [], length, take, drop, Result, ok, err, panic, Outcome,
  ret, fail, abort, within, and_then,
}
use byst.Range.{Range, RangeOutOfBounds}
use byst.Io.Interface.{end_at, BufReader, Seek}
use byst.Io.Laws.{IsCursor, IsBufReader, IsReaderOf}
use byst.Bytes.{BytesImpl, View, boxed, default, len, view_of, view_reader, view_seek}
use byst.Bytes.Erased.{IsBytes, IsValid, contents_of, view_reader-IsReaderOf}

-- `struct Bytes`
pub record Bytes (S : Type 0) : Type 0 where
  pub inner : View S

-- `From<View>`
abbrev pub from_view : {S : Type 0} → View S → Bytes S
from_view v = record { inner = v }

-- `Bytes::from_impl`, and `Bytes::new` with `Default`
abbrev pub from_impl : {S : Type 0} → S → Bytes S
from_impl s = from_view (boxed s)

abbrev pub new : {S : Type 0} → Bytes S
new = from_view default

-- the view that a call returns, and the one that it leaves, as `Bytes`
abbrev pub rewrapped : {S E : Type 0} → Outcome (View S) E (View S) → Outcome (Bytes S) E (Bytes S)
rewrapped (ret v w) = ret (from_view v) (from_view w)
rewrapped (fail e w) = fail e (from_view w)
rewrapped abort = abort

abbrev pub from_result : {S E : Type 0} → Result E (View S) → Result E (Bytes S)
from_result (ok v) = ok (from_view v)
from_result (err e) = err e
from_result panic = panic

abbrev pub from_rest : {S : Type 0} → Option (View S × View S) → Option (Bytes S × Bytes S)
from_rest none = none
from_rest (some (v, w)) = some (from_view v, from_view w)

module _ {S : Type 0} (i : BytesImpl S) where
  -- `Buf::view`, and `Length::len`
  unfoldable pub bytes_view : Range → Bytes S → Result RangeOutOfBounds (Bytes S)
  bytes_view range b = from_result (view_of i range b.inner)

  abbrev pub bytes_len : Bytes S → ℕ
  bytes_len b = len i b.inner

  -- `impl BufReader for Bytes`
  unfoldable pub bytes_reader : BufReader (Bytes S) (Bytes S)
  unfolding view_reader
  bytes_reader = record {
    peek_chunk = λ b. (view_reader i).peek_chunk b.inner;
    view = λ n b. rewrapped ((view_reader i).view n b.inner);
    peek_view = λ n b. from_result ((view_reader i).peek_view n b.inner);
    rest = λ b. from_rest ((view_reader i).rest b.inner);
    peek_rest = λ b. and_then ((view_reader i).peek_rest b.inner) (λ v. some (from_view v));
    advance = λ n b. within from_view ((view_reader i).advance n b.inner);
    remaining = λ b. (view_reader i).remaining b.inner;
    view_len = bytes_len;
  }

  -- `impl Seek for Bytes`
  abbrev pub bytes_seek : Seek (Bytes S) (Bytes S)
  bytes_seek = record {
    tell = λ b. from_view ((view_seek i).tell b.inner);
    seek = λ position b.
        let (v, old) = (view_seek i).seek position.inner b.inner in (from_view v, from_view old);
  }

module _ {S : Type 0} (i : BytesImpl S) (c : IsBufReader (view_reader i)) where
  open c use {valid, contents}

  advance_within :
      (n : ℕ) (b : Bytes S)
      → valid b.inner
      → n ≤ length (contents b.inner)
      → (b' : Bytes S) × ((bytes_reader i).advance n b ≡ ret tt b')
        × valid b'.inner
        × (contents b'.inner ≡ drop n (contents b.inner))
  unfolding bytes_reader
  advance_within n b v h =
      let (w, e, v', d) = c.advances n b.inner v h in (from_view w, ap (within from_view) e, v', d)

  view_within :
      (n : ℕ) (b : Bytes S)
      → valid b.inner
      → n ≤ length (contents b.inner)
      → (v : Bytes S) × (b' : Bytes S) × ((bytes_reader i).view n b ≡ ret v b')
        × ((bytes_reader i).peek_view n b ≡ ok v)
        × valid b'.inner
        × (c.bytes v.inner ≡ take n (contents b.inner))
        × (contents b'.inner ≡ drop n (contents b.inner))
  unfolding bytes_reader
  view_within n b v h =
      let (w, w', e, p, v', t, d) = c.views n b.inner v h in
      (from_view w, from_view w', ap rewrapped e, ap from_result p, v', t, d)

  view_beyond :
      (n : ℕ) (b : Bytes S)
      → valid b.inner
      → length (contents b.inner) < n
      → ((bytes_reader i).view n b ≡ fail (end_at n (length (contents b.inner))) b)
        × ((bytes_reader i).peek_view n b ≡ err (end_at n (length (contents b.inner))))
  unfolding bytes_reader
  view_beyond n b v h = let (e, p) = c.view_ends n b.inner v h in (ap rewrapped e, ap from_result p)

  rest_lem :
      (b : Bytes S)
      → valid b.inner
      → (v : Bytes S) × (b' : Bytes S) × ((bytes_reader i).rest b ≡ some (v, b'))
        × ((bytes_reader i).peek_rest b ≡ some v)
        × valid b'.inner
        × (c.bytes v.inner ≡ contents b.inner)
        × (contents b'.inner ≡ [])
  unfolding bytes_reader
  rest_lem b v =
      let (w, w', e, p, v', t, d) = c.rests b.inner v in
      (
        from_view w,
        from_view w',
        ap from_rest e,
        ap (λ o. and_then o (λ v. some (from_view v))) p,
        v',
        t,
        d,
      )

  unfoldable bytes_reader-IsCursor : IsCursor (bytes_reader i)
  unfolding bytes_reader advance_within
  bytes_reader-IsCursor = record {
    valid = λ b. valid b.inner;
    contents = λ b. contents b.inner;
    peeks = λ b v. c.peeks b.inner v;
    advances = advance_within;
    ends = λ n b v h. ap (within from_view) (c.ends n b.inner v h);
    remains = λ b v. c.remains b.inner v;
  }

  unfoldable handed_on : IsBufReader (bytes_reader i)
  unfolding bytes_reader view_reader bytes_reader-IsCursor
  handed_on = record {
    cursor = bytes_reader-IsCursor;
    bytes = λ b. c.bytes b.inner;
    len_lem = λ b. c.len_lem b.inner;
    views = view_within;
    view_ends = view_beyond;
    rests = rest_lem;
  }

-- For an implementation of `BytesImpl` that is bytes of which its views are parts, `Bytes` over
-- a view of it keeps the contract of a reader on all states whose box is valid or was left
-- empty: what is left of it, and what its views show, are the bytes of the implementation in the
-- box, or none where that was taken.
pub bytes_reader-IsReaderOf :
    {S : Type 0} {i : BytesImpl S} (b : IsBytes i)
    → IsReaderOf
        (bytes_reader i)
        (λ s. IsValid b s.inner)
        (λ s. contents_of b s.inner)
        (λ v. contents_of b v.inner)
unfolding handed_on bytes_reader-IsCursor
bytes_reader-IsReaderOf {i = i} b =
    let (c, valid_lem, contents_lem, bytes_lem) = view_reader-IsReaderOf b in
    (
      handed_on i c,
      ap (λ f s. f s.inner) valid_lem,
      ap (λ f s. f s.inner) contents_lem,
      ap (λ f v. f v.inner) bytes_lem,
    )
