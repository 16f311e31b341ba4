-- ===== src/Bytes/Erased.antt =====
-- The view of byst/src/bytes/view.rs, beside the contract of a reader and what is asked of the
-- implementation in the box.
use byst.Prelude.{
  ℕ, ◌+◌, ◌≤◌, ◌<◌, ◌≡◌, refl, sym, ap, ◌∙◌, subst, some, List, [], arith, length, take, drop,
  drop_nil, take_nil, Result, ok, err, panic, ret, fail, map_err, within, IsNoPanic,
}
use byst.Range.{Range, RangeOutOfBounds, range, slice_get}
use byst.Io.Interface.{end_at}
use byst.Range.Indices.{slice_get-IsNoPanic, slice_get-front, slice_get-beyond}
use byst.Io.Laws.{Peeks, IsCursor, IsBufReader, IsReaderOf}
use byst.Io.Slice.{slice_cursor}
use byst.Buf.Empty
use byst.Buf.Empty.{check_range, Empty, empty, empty_reader}
use byst.Bytes.{
  boxed_view, reached, viewed, BytesImpl, slice_impl, empty_impl, View, boxed, default, len, clone,
  peek_chunk, advance, view_of, peek_view, view, view_reader,
}

-- What a view of the implementation is, beside the part of a slice.
abbrev pub Shows :
    {S : Type 0}
    → (S → Type 0)
    → (S → List ℕ)
    → Result RangeOutOfBounds S
    → Result RangeOutOfBounds (List ℕ)
    → Type 0
Shows valid contents (ok s) (ok xs) = valid s × (contents s ≡ xs)
Shows valid contents (err e) (err d) = e ≡ d
Shows valid contents _ _ = ⊥

-- What an implementation promises: it is bytes, of which its views are parts.
pub record IsBytes {S : Type 0} (i : BytesImpl S) : Type 1 where
  pub valid : S → Type 0
  pub contents : S → List ℕ
  pub clones : (s : S) → i.clone s ≡ s
  pub peeks : (s : S) → valid s → Peeks (i.peek_chunk s) (contents s)
  pub views :
      (r : Range) (s : S) → valid s → Shows valid contents (i.view r s) (slice_get r (contents s))
  pub advances :
      (n : ℕ) (s : S)
      → valid s
      → n ≤ length (contents s)
      → (s' : S) × (i.advance n s ≡ ret tt s') × valid s' × (contents s' ≡ drop n (contents s))
  pub ends :
      (n : ℕ) (s : S)
      → valid s
      → length (contents s) < n
      → i.advance n s ≡ fail (end_at n (length (contents s))) s
  pub len_lem : (s : S) → i.len s ≡ length (contents s)

shows-valid :
    {S : Type 0} (valid : S → Type 0) (contents : S → List ℕ) (o : Result RangeOutOfBounds S)
    (xs : List ℕ)
    → Shows valid contents o (ok xs)
    → (s : S) × (o ≡ ok s) × valid s × (contents s ≡ xs)
shows-valid valid contents (ok s) xs (v, e) = (s, refl, v, e)
shows-valid valid contents (err e) xs h = elim h [ ]
shows-valid valid contents panic xs h = elim h [ ]

shows-err :
    {S : Type 0} (valid : S → Type 0) (contents : S → List ℕ) (o : Result RangeOutOfBounds S)
    (e : RangeOutOfBounds)
    → Shows valid contents o (err e)
    → o ≡ err e
shows-err valid contents (ok s) e h = elim h [ ]
shows-err valid contents (err d) e h = ap err h
shows-err valid contents panic e h = elim h [ ]

slice-shows : (o : Result RangeOutOfBounds (List ℕ)) → IsNoPanic o → Shows (λ _. Unit) (λ s. s) o o
slice-shows (ok s) h = (tt, refl)
slice-shows (err e) h = refl
slice-shows panic h = elim h [ ]

-- The implementation for slices.
unfoldable pub slice_bytes : IsBytes slice_impl
unfolding slice_impl slice_cursor slice-shows
slice_bytes = record {
  valid = λ _. Unit;
  contents = λ s. s;
  clones = λ s. refl;
  peeks = λ s v. slice_cursor.peeks s tt;
  views = λ r s v. slice-shows (slice_get r s) (slice_get-IsNoPanic r s);
  advances = λ n s v. slice_cursor.advances n s tt;
  ends = λ n s v. slice_cursor.ends n s tt;
  len_lem = λ s. refl;
}

-- What a view is: valid where its implementation is, with the bytes of that.
module _ {S : Type 0} {i : BytesImpl S} (b : IsBytes i) where
  abbrev pub IsValid : View S → Type 0
  IsValid (boxed s) = b.valid s
  IsValid default = Unit

  abbrev pub contents_of : View S → List ℕ
  contents_of (boxed s) = b.contents s
  contents_of default = []

  peek-Peeks : (v : View S) → IsValid v → Peeks (peek_chunk i v) (contents_of v)
  unfolding peek_chunk
  peek-Peeks (boxed s) h = b.peeks s h
  peek-Peeks default h = refl

  advance_within :
      (n : ℕ) (v : View S)
      → IsValid v
      → n ≤ length (contents_of v)
      → (w : View S) × (advance i n v ≡ ret tt w)
        × IsValid w
        × (contents_of w ≡ drop n (contents_of v))
  unfolding advance empty_impl empty_reader
  advance_within n (boxed s) h k =
      let (t, e, v, c) = b.advances n s h k in (boxed t, ap (within boxed) e, v, c)
  advance_within n default h k = (default, ground arith, tt, sym (drop_nil n))

  advance_beyond :
      (n : ℕ) (v : View S)
      → IsValid v
      → length (contents_of v) < n
      → advance i n v ≡ fail (end_at n (length (contents_of v))) v
  unfolding advance empty_impl empty_reader
  advance_beyond n (boxed s) h k = ap (within boxed) (b.ends n s h k)
  advance_beyond n default h k = ground arith

  clone_lem : (v : View S) → clone i v ≡ v
  clone_lem (boxed s) = ap boxed (b.clones s)
  clone_lem default = refl

  len-contents : (v : View S) → len i v ≡ length (contents_of v)
  len-contents (boxed s) = b.len_lem s
  len-contents default = refl

  peek_view_within :
      (n : ℕ) (v : View S)
      → IsValid v
      → n ≤ length (contents_of v)
      → (w : View S) × (peek_view i n v ≡ ok w)
        × IsValid w
        × (contents_of w ≡ take n (contents_of v))
  unfolding peek_view view_of empty_impl Empty.view
  peek_view_within n (boxed s) h k =
      let (t, e, v, c) =
        shows-valid b.valid b.contents (i.view (range (some 0) (some (0 + n))) s)
          (take n (b.contents s))
          (subst (Shows b.valid b.contents (i.view (range (some 0) (some (0 + n))) s))
            (slice_get-front n (b.contents s) k) (b.views (range (some 0) (some (0 + n))) s h)) in
      (boxed t, ap (λ o. map_err (λ _. end_at n (i.len s)) (boxed_view o)) e, v, c)
  peek_view_within n default h k = (default, ground arith, tt, sym (take_nil n))

  peek_view_beyond :
      (n : ℕ) (v : View S)
      → IsValid v
      → length (contents_of v) < n
      → peek_view i n v ≡ err (end_at n (length (contents_of v)))
  unfolding peek_view view_of empty_impl Empty.view
  peek_view_beyond n (boxed s) h k =
      ap (λ o. map_err (λ _. end_at n (i.len s)) (boxed_view o))
        (shows-err b.valid b.contents (i.view (range (some 0) (some (0 + n))) s) _ (
          subst (Shows b.valid b.contents (i.view (range (some 0) (some (0 + n))) s))
            (slice_get-beyond n (b.contents s) k) (b.views (range (some 0) (some (0 + n))) s h)))
      ∙ ap (λ m. err (end_at n m)) (b.len_lem s)
  peek_view_beyond n default h k = ground arith

  views_within :
      (n : ℕ) (v : View S)
      → IsValid v
      → n ≤ length (contents_of v)
      → (w : View S) × (v' : View S) × (view i n v ≡ ret w v')
        × (peek_view i n v ≡ ok w)
        × IsValid v'
        × (contents_of w ≡ take n (contents_of v))
        × (contents_of v' ≡ drop n (contents_of v))
  unfolding view
  views_within n v h k =
      let (w, e, _, c) = peek_view_within n v h k in
      let (v', a, h', d) = advance_within n v h k in
      (w, v', ap (λ o. viewed i o n v) e ∙ ap (reached i w) a, e, h', c, d)

  views_beyond :
      (n : ℕ) (v : View S)
      → IsValid v
      → length (contents_of v) < n
      → (view i n v ≡ fail (end_at n (length (contents_of v))) v)
        × (peek_view i n v ≡ err (end_at n (length (contents_of v))))
  unfolding view
  views_beyond n v h k =
      (ap (λ o. viewed i o n v) (peek_view_beyond n v h k), peek_view_beyond n v h k)

  rests_lem :
      (v : View S)
      → IsValid v
      → (w : View S) × (v' : View S) × ((view_reader i).rest v ≡ some (w, v'))
        × ((view_reader i).peek_rest v ≡ some w)
        × IsValid v'
        × (contents_of w ≡ contents_of v)
        × (contents_of v' ≡ [])
  unfolding view_reader
  rests_lem v h = (v, default, refl, ap some (clone_lem v), tt, refl, refl)

  unfoldable view_reader-IsCursor : IsCursor (view_reader i)
  unfolding view_reader peek-Peeks advance_within advance_beyond len-contents
  view_reader-IsCursor = record {
    valid = IsValid;
    contents = contents_of;
    peeks = peek-Peeks;
    advances = advance_within;
    ends = advance_beyond;
    remains = λ v _. len-contents v;
  }

  -- the laws of a reader
  unfoldable view_reader-IsBufReader : IsBufReader (view_reader i)
  unfolding view_reader view_reader-IsCursor
  view_reader-IsBufReader = record {
    cursor = view_reader-IsCursor;
    bytes = contents_of;
    len_lem = len-contents;
    views = views_within;
    view_ends = views_beyond;
    rests = rests_lem;
  }

  -- The view keeps the contract of a reader, of the bytes of what is in the box.
  pub view_reader-IsReaderOf : IsReaderOf (view_reader i) IsValid contents_of contents_of
  unfolding view_reader-IsBufReader view_reader-IsCursor
  view_reader-IsReaderOf = (view_reader-IsBufReader, refl, refl, refl)
