-- ===== src/Buf/Partial.antt =====
-- byst/src/buf/partially_initialized.rs and byst/src/buf/array_buf.rs: a chunk of memory whose
-- first `initialized` bytes are initialised, its writer, and the array that is one.
pub mod Valid
pub mod Writes
pub mod Contract
pub mod Array
use byst.Prelude.{
  ℕ, zero, suc, ◌+◌, ◌-◌, ◌*◌, ◌/◌, ◌%◌, ◌^◌, ◌≤◌, ◌<◌, min, max, ◌≡◌, refl, sym, ap, ap₂, ◌∙◌,
  subst, ◌≢◌, ◌↔◌, ◌⊎◌, inl, inr, Bool, true, false, not, ◌&&◌, ◌||◌, Option, none, some, List, [],
  ◌∷◌, ◌++◌, map, reverse, append-nil, append_assoc, arith, ltb, leb, ◌==◌, if◌then◌else◌, ltb→lt,
  lt→ltb, le→ltb, leb→le, le→leb, lt→leb, eq→==, Bool-cases, le-or-lt, Option-cases, usize_mod,
  checked_add, checked_sub, length, get_elem?, take, drop, replicate, length-append,
  take-append-drop, take-add, length-take, length-drop, length-replicate, drop_all, take_all,
  drop_nil, take_nil, drop-drop, take-append, drop-append, take-append_le, drop-append_le,
  take-take, eq-nil_of_length, overlay, overlay_at, length-overlay, length-overlay_at, take-front,
  drop-front, take-overlay_at, drop-overlay_at, drop-overlay, all_kept, overlay-extend, Result, ok,
  err, panic, Outcome, ret, fail, abort, or_panic, or_abort, ◌>>=◌, map_err, map_fail, within,
}
use byst.Range.{Range, RangeOutOfBounds, slice_get}
use byst.Io.Interface
use byst.Io.Interface.{BufWriter, full_at}
use byst.Buf.{Full, to_io_full, SizeLimit, exact, reserve_fixed}
use byst.Buf.Fill.{assume_init}

-- `struct PartiallyInitialized`
pub record PartiallyInitialized : Type 0 where
  pub buf : List (Option ℕ)
  pub initialized : ℕ

unfoldable pub new : List (Option ℕ) → PartiallyInitialized
new buf = record { buf = buf; initialized = 0 }

unfoldable pub assume_initialized : PartiallyInitialized → ℕ → PartiallyInitialized
assume_initialized p n = record p { initialized = max p.initialized n }

unfoldable pub clear : PartiallyInitialized → PartiallyInitialized
clear p = record p { initialized = 0 }

abbrev pub into_parts : PartiallyInitialized → List (Option ℕ) × ℕ
into_parts p = (p.buf, p.initialized)

-- `bytes`, and `bytes_mut` for writing: `self.buf[..self.initialized]`
unfoldable pub bytes : PartiallyInitialized → List ℕ
bytes p = assume_init (take p.initialized p.buf)

abbrev pub capacity : PartiallyInitialized → ℕ
capacity p = length p.buf

unfoldable pub is_full : PartiallyInitialized → Bool
is_full p = p.initialized == length p.buf

-- `resize`; `none` is its panic.
unfoldable pub resize : PartiallyInitialized → ℕ → ℕ → Option PartiallyInitialized
resize p new_len value =
    if ltb (length p.buf) new_len
    then none
    else some (record {
      buf =
          if ltb p.initialized new_len
          then overlay_at p.initialized (replicate (new_len - p.initialized) (some value)) p.buf
          else p.buf;
      initialized = new_len;
    })

-- `Buf::view`
unfoldable pub view : PartiallyInitialized → Range → Result RangeOutOfBounds (List ℕ)
unfolding bytes
view p range = slice_get range (bytes p)

-- `BufMut::reserve` and `BufMut::size_limit`
unfoldable pub reserve : PartiallyInitialized → ℕ → Result Full (Unit {0})
reserve p size = reserve_fixed (length p.buf) size

abbrev pub size_limit : PartiallyInitialized → SizeLimit
size_limit p = exact (length p.buf)

-- `struct PartiallyInitializedWriter`; the buffer that it borrows is a part of its state.
pub record Writer : Type 0 where
  pub inner : PartiallyInitialized
  pub position : ℕ

-- `BufMut::writer`
abbrev pub writer : PartiallyInitialized → Writer
writer p = record { inner = p; position = 0 }

-- the buffer after `f` has filled the bytes from `start` to `end`
unfoldable pub filled :
    PartiallyInitialized → ℕ → ℕ → (List (Option ℕ) → List (Option ℕ)) → PartiallyInitialized
unfolding assume_initialized
filled p start end f =
    assume_initialized
      (record p { buf = overlay_at start (f (take (end - start) (drop start p.buf))) p.buf }) end

-- `fill_with`; the sum may overflow.
unfoldable pub fill_with :
    ℕ → (List (Option ℕ) → List (Option ℕ)) → Writer → Outcome Writer Full (Unit {0})
unfolding filled
fill_with len f w = or_abort (checked_add w.position len) (λ end.
    if leb end (length w.inner.buf)
    then ret tt (record { inner = filled w.inner w.position end f; position = end })
    else fail (record { required = len; capacity = length w.inner.buf }) w)

-- what is left of the initialised bytes; the difference may underflow
remaining_error : {A : Type 0} → ℕ → Writer → Outcome Writer Interface.Full A
remaining_error len w =
    or_abort (checked_sub w.inner.initialized w.position) (λ rest. fail (full_at len rest) w)

unfoldable pub peek_chunk_mut : Writer → Option (List ℕ)
unfolding bytes
peek_chunk_mut w =
    if ltb w.position w.inner.initialized then some (drop w.position (bytes w.inner)) else none

view_mut : ℕ → Writer → Outcome Writer Interface.Full (List ℕ)
unfolding bytes remaining_error
view_mut len w = or_abort (checked_add w.position len) (λ end.
    if leb end w.inner.initialized
    then ret (take len (drop w.position (bytes w.inner))) (record w { position = end })
    else remaining_error len w)

peek_view_mut : ℕ → Writer → Outcome Writer Interface.Full (List ℕ)
unfolding bytes remaining_error
peek_view_mut len w = or_abort (checked_add w.position len) (λ end.
    if leb end w.inner.initialized
    then ret (take len (drop w.position (bytes w.inner))) w
    else remaining_error len w)

-- A slice from behind the end of the bytes is a panic.
rest_mut : Writer → Outcome Writer Interface.Full (List ℕ)
unfolding bytes
rest_mut w =
    if leb w.position w.inner.initialized
    then ret (drop w.position (bytes w.inner)) (record w { position = w.inner.initialized })
    else abort

peek_rest_mut : Writer → Outcome Writer Interface.Full (List ℕ)
unfolding bytes
peek_rest_mut w =
    if leb w.position w.inner.initialized then ret (drop w.position (bytes w.inner)) w else abort

-- `MaybeUninit::fill(&mut buf[n..], 0)`
abbrev pub zero_from : ℕ → List (Option ℕ) → List (Option ℕ)
zero_from n b = take n b ++ replicate (length b - n) (some 0)

unfoldable pub advance : ℕ → Writer → Outcome Writer Interface.Full (Unit {0})
unfolding fill_with to_io_full
advance by w = or_abort (checked_sub w.inner.initialized w.position) (λ already_filled.
    if ltb already_filled by
    then map_fail to_io_full (fill_with by (zero_from already_filled) w)
    else or_abort (checked_add w.position by) (λ p. ret tt (record w { position = p })))

unfoldable pub extend : List ℕ → Writer → Outcome Writer Interface.Full (Unit {0})
unfolding fill_with to_io_full
extend with w = map_fail to_io_full (fill_with (length with) (λ _. map some with) w)

-- bytes put through the borrow that `peek_chunk_mut` hands out
unfoldable pub store : List ℕ → Writer → Writer
store xs w = record w {
  inner = record (w.inner) { buf = overlay_at w.position (map some xs) w.inner.buf };
}

-- `impl BufWriter for PartiallyInitializedWriter`. In `remaining` the difference stops at 0, where
-- the code would panic; only a cursor behind the bytes leads there.
unfoldable pub partial_writer : BufWriter Writer
unfolding peek_chunk_mut store view_mut peek_view_mut rest_mut peek_rest_mut advance extend
partial_writer = record {
  peek_chunk_mut = peek_chunk_mut;
  store = store;
  view_mut = view_mut;
  peek_view_mut = peek_view_mut;
  rest_mut = rest_mut;
  peek_rest_mut = peek_rest_mut;
  advance = advance;
  remaining = λ w. w.inner.initialized - w.position;
  extend = extend;
}
