-- ===== src/Io/Slice.antt =====
-- A slice as a reader (`&[u8]`, byst/src/io/read.rs) and as a writer (`&mut [u8]`,
-- byst/src/io/write.rs). As a reader it is the bytes that are left. As a writer it is the bytes of
-- the original slice that lie before the cursor, beside those that the reference still covers.
use byst.Prelude.{
  ℕ, ◌+◌, ◌-◌, ◌≤◌, ◌<◌, ◌≡◌, refl, sym, ap, inr, true, Option, none, some, List, [], ◌∷◌, ◌++◌,
  append-nil, arith, leb, if◌then◌else◌, leb→le, le→leb, length, take, drop, replicate, length-drop,
  take_all, overlay, length-overlay, Result, ok, err, Outcome, ret, fail,
}
use byst.Io.Interface.{Seek, End, Full, end_at, full_at, BufReader, BufWriter}
use byst.Io.Laws.{Peeks, IsCursor, IsBufReader, IsBufWriter}

pub peek_chunk : List ℕ → Option (List ℕ)
peek_chunk [] = none
peek_chunk (x ∷ xs) = some (x ∷ xs)

pub view : ℕ → List ℕ → Outcome (List ℕ) End (List ℕ)
view n s = if leb n (length s) then ret (take n s) (drop n s) else fail (end_at n (length s)) s

pub peek_view : ℕ → List ℕ → Result End (List ℕ)
peek_view n s = if leb n (length s) then ok (take n s) else err (end_at n (length s))

pub advance : ℕ → List ℕ → Outcome (List ℕ) End (Unit {0})
advance n s = if leb n (length s) then ret tt (drop n s) else fail (end_at n (length s)) s

-- `impl BufReader for &[u8]`
unfoldable pub slice_reader : BufReader (List ℕ) (List ℕ)
unfolding peek_chunk view peek_view advance
slice_reader = record {
  peek_chunk = peek_chunk;
  view = view;
  peek_view = peek_view;
  rest = λ s. some (s, []);
  peek_rest = λ s. some s;
  advance = advance;
  remaining = λ s. length s;
  view_len = λ v. length v;
}

-- `impl Seek for &[u8]` of byst/src/io/mod.rs
unfoldable pub slice_seek : Seek (List ℕ) (List ℕ)
slice_seek = record { tell = λ s. s; seek = λ position s. (s, position) }

-- A slice reader is its bytes.
pub slice-peeks : (s : List ℕ) → Peeks (peek_chunk s) s
unfolding peek_chunk
slice-peeks [] = refl
slice-peeks (x ∷ xs) =
    (omega arith, ap (x ∷◌) (sym (take_all (length xs) xs (omega arith))), omega arith)

pub slice-advances :
    (n : ℕ) (s : List ℕ)
    → n ≤ length s
    → (s' : List ℕ) × (advance n s ≡ ret tt s') × Unit {0} × (s' ≡ drop n s)
unfolding advance
slice-advances n s h = (drop n s, ground arith, tt, refl)

pub slice-ends : (n : ℕ) (s : List ℕ) → length s < n → advance n s ≡ fail (end_at n (length s)) s
unfolding advance
slice-ends n s h = ground arith

pub slice-views :
    (n : ℕ) (s : List ℕ)
    → n ≤ length s
    → (v s' : List ℕ) × (view n s ≡ ret v s')
      × (peek_view n s ≡ ok v)
      × Unit {0}
      × (v ≡ take n s)
      × (s' ≡ drop n s)
unfolding view peek_view
slice-views n s h = (take n s, drop n s, ground arith, ground arith, tt, refl, refl)

pub slice-view_ends :
    (n : ℕ) (s : List ℕ)
    → length s < n
    → (view n s ≡ fail (end_at n (length s)) s) × (peek_view n s ≡ err (end_at n (length s)))
unfolding view peek_view
slice-view_ends n s h = (ground arith, ground arith)

unfoldable pub slice_cursor : IsCursor slice_reader
unfolding slice_reader slice-peeks slice-advances slice-ends
slice_cursor = record {
  valid = λ s. Unit;
  contents = λ s. s;
  peeks = λ s _. slice-peeks s;
  advances = λ n s _. slice-advances n s;
  ends = λ n s _. slice-ends n s;
  remains = λ s _. refl;
}

-- A slice keeps the contract of a reader, and the bytes that are left are the slice itself.
unfoldable pub slice_contract : IsBufReader slice_reader
unfolding slice_reader slice_cursor slice-views slice-view_ends
slice_contract = record {
  cursor = slice_cursor;
  bytes = λ v. v;
  len_lem = λ v. refl;
  views = λ n s _. slice-views n s;
  view_ends = λ n s _. slice-view_ends n s;
  rests = λ s _. (s, [], refl, refl, tt, refl, refl);
}

-- `&mut [u8]`: the bytes of the original slice before the cursor, and those after it.
pub record SliceWriter : Type 0 where
  pub written : List ℕ
  pub left : List ℕ

abbrev pub slice_at : List ℕ → List ℕ → SliceWriter
slice_at xs ys = record { written = xs; left = ys }

-- `std::mem::take(self).split_at_mut(n)`, keeping the right half
split_mut : ℕ → SliceWriter → SliceWriter
split_mut n s = slice_at (s.written ++ take n s.left) (drop n s.left)

full : {A : Type 0} → ℕ → SliceWriter → Outcome SliceWriter Full A
full n s = fail (full_at n (length s.left)) s

view_mut : ℕ → SliceWriter → Outcome SliceWriter Full (List ℕ)
unfolding split_mut full
view_mut n s = if leb n (length s.left) then ret (take n s.left) (split_mut n s) else full n s

peek_view_mut : ℕ → SliceWriter → Outcome SliceWriter Full (List ℕ)
unfolding full
peek_view_mut n s = if leb n (length s.left) then ret (take n s.left) s else full n s

pub advance_mut : ℕ → SliceWriter → Outcome SliceWriter Full (Unit {0})
unfolding split_mut full
advance_mut n s = if leb n (length s.left) then ret tt (split_mut n s) else full n s

pub extend : List ℕ → SliceWriter → Outcome SliceWriter Full (Unit {0})
unfolding full
extend xs s =
    if leb (length xs) (length s.left)
    then ret tt (slice_at (s.written ++ xs) (drop (length xs) s.left))
    else full (length xs) s

-- `impl BufWriter for &mut [u8]`
unfoldable pub slice_writer : BufWriter SliceWriter
unfolding peek_chunk view_mut peek_view_mut advance_mut extend
slice_writer = record {
  peek_chunk_mut = λ s. peek_chunk s.left;
  store = λ xs s. slice_at s.written (overlay xs s.left);
  view_mut = view_mut;
  peek_view_mut = peek_view_mut;
  rest_mut = λ s. ret s.left (slice_at (s.written ++ s.left) []);
  peek_rest_mut = λ s. ret s.left s;
  advance = advance_mut;
  remaining = λ s. length s.left;
  extend = extend;
}

pub slice_writer-advances :
    (n : ℕ) (s : SliceWriter)
    → leb n (length s.left) ≡ true
    → (s' : SliceWriter) × (advance_mut n s ≡ ret tt s')
      × Unit {0}
      × (s'.written ≡ s.written ++ (take n s.left ++ replicate (n - length s.left) 0))
      × (s'.left ≡ drop n s.left)
      × ((m : ℕ) → leb m (length s'.left) ≡ leb (n + m) (length s.left))
unfolding advance_mut
slice_writer-advances n s h =
    let e : n - length s.left ≡ 0 = omega (arith, leb→le) in
    (
      split_mut n s,
      rw h,
      tt,
      rw (e, append-nil),
      refl,
      λ m. ground (arith, length-drop n s.left, h),
    )

pub slice_writer-extends :
    (xs : List ℕ) (s : SliceWriter)
    → leb (length xs) (length s.left) ≡ true
    → (s' : SliceWriter) × (extend xs s ≡ ret tt s')
      × Unit {0}
      × (s'.written ≡ s.written ++ xs)
      × (s'.left ≡ drop (length xs) s.left)
      × ((m : ℕ) → leb m (length s'.left) ≡ leb (length xs + m) (length s.left))
unfolding extend
slice_writer-extends xs s h = (
  slice_at (s.written ++ xs) (drop (length xs) s.left),
  rw h,
  tt,
  refl,
  refl,
  λ m. ground (arith, length-drop (length xs) s.left, h),
)

pub leb_trans : (n m k : ℕ) → n ≤ m → leb m k ≡ true → leb n k ≡ true
leb_trans n m k h e = ground arith

-- A mutable slice keeps the contract of a writer: what lies before the cursor and after it changes
-- as the contract says, and it fits exactly the bytes that it still covers.
unfoldable pub slice_writer_contract : IsBufWriter slice_writer
unfolding slice_writer
slice_writer_contract = record {
  valid = λ s. Unit;
  before = λ s. s.written;
  after = λ s. s.left;
  fits = λ s n. leb n (length s.left);
  peeks = λ s _. slice-peeks s.left;
  stores = λ xs s _ h. (tt, refl, refl, λ n. ap (leb n) (length-overlay xs s.left h));
  shrinks = λ n m s h e. leb_trans n m (length s.left) h e;
  holds = λ n s _ h. le→leb n (length s.left) h;
  advances = λ n s _. slice_writer-advances n s;
  extends = λ xs s _. slice_writer-extends xs s;
  refuses = λ xs s _ h. inr (full_at (length xs) (length s.left), rw h, refl);
}

-- A slice keeps the contract of the readers, views included: its chunk is the whole slice, a
-- view or a step takes the first bytes, and one beyond its end is an error that changes nothing.
pub slice_reader-IsBufReader : IsBufReader slice_reader
slice_reader-IsBufReader = slice_contract
