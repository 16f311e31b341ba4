-- ===== src/Buf/Empty/Contract.antt =====
-- The empty buffer of byst/src/buf/empty.rs, beside the contracts and a slice of no bytes.
use byst.Prelude.{
  ℕ, zero, suc, ◌+◌, ◌-◌, ◌≤◌, ◌<◌, ◌≡◌, refl, sym, ap, inl, inr, true, false, Option, none, some,
  List, [], ◌++◌, arith, leb, ◌==◌, if◌then◌else◌, le→leb, eq→==, lt→==, gt→==, ==→eq, le-or-lt,
  length, take, replicate, drop_nil, take_nil, eq-nil_of_length, overlay, ok, err, ret, fail, abort,
  ◌>>=◌,
}
use byst.Range.{range, slice_get}
use byst.Io.Interface.{BufWriter, end_at, full_at}
use byst.Io.Laws.{IsCursor, IsBufReader, IsBufWriter}
use byst.Io.Reads.{read_into, read_into_exact, derived_reader}
use byst.Copy.{copied, copy_io, copy_loop, round, wanted}
use byst.Buf.{BufMut}
use byst.Buf.Empty.{
  Empty, empty, view, empty_reader, empty_writer, empty_read, call, call_into, check_range,
  check_length_read, check_length_write,
}

-- Each view of the empty buffer is that of a slice without bytes, with the same error.
pub view-eq-slice_get :
    (s e : Option ℕ) → view (range s e) ≡ (slice_get (range s e) [] >>= λ _. ok empty)
unfolding view check_range slice_get
view-eq-slice_get none none = refl
view-eq-slice_get none (some e) = ground arith
view-eq-slice_get (some s) none = ground arith
view-eq-slice_get (some s) (some e) = ground arith

length-refused : (n : ℕ) (s : Empty) → 0 < n → empty_reader.advance n s ≡ fail (end_at n 0) s
unfolding empty_reader check_length_read
length-refused n empty h = rw (gt→== n 0 h) refl

unfoldable pub empty_cursor : IsCursor empty_reader
unfolding empty_reader check_length_read length-refused
empty_cursor = record {
  valid = λ _. Unit;
  contents = λ _. [];
  peeks = λ s v. refl;
  advances = λ n s v h. (empty, rw (eq→== n 0 (omega arith)) refl, tt, sym (drop_nil n));
  ends = λ n s v h. length-refused n s h;
  remains = λ s v. refl;
}

view-refused :
    (n : ℕ) (s : Empty)
    → 0 < n
    → (empty_reader.view n s ≡ fail (end_at n 0) s)
      × (empty_reader.peek_view n s ≡ err (end_at n 0))
unfolding empty_reader check_length_read
view-refused n empty h = (rw (gt→== n 0 h) refl, rw (gt→== n 0 h) refl)

-- The reader of no bytes keeps the contract.
pub empty_reader-IsBufReader : IsBufReader empty_reader
unfolding empty_reader check_length_read empty_cursor
empty_reader-IsBufReader = record {
  cursor = empty_cursor;
  bytes = λ _. [];
  len_lem = λ v. refl;
  views = λ n s v h. (
    empty,
    empty,
    rw (eq→== n 0 (omega arith)) refl,
    rw (eq→== n 0 (omega arith)) refl,
    tt,
    sym (take_nil n),
    sym (drop_nil n),
  );
  view_ends = λ n s v h. view-refused n s h;
  rests = λ s v. (empty, s, refl, refl, tt, refl, refl);
}

write-refused :
    (n : ℕ) (s : Empty) → (n == 0) ≡ false → call tt (check_length_write n) ≡ fail (full_at n 0) s
unfolding check_length_write
write-refused n empty h = rw h refl

nothing_taken : (n : ℕ) → (n == 0) ≡ true → ◌≡◌ {A = List ℕ} [] (take n [] ++ replicate (n - 0) 0)
nothing_taken zero h = refl
nothing_taken (suc n) h = absurd (omega (arith, ==→eq (suc n) 0 h))

nil-of : (xs : List ℕ) → length xs ≤ 0 → xs ≡ []
nil-of xs h = eq-nil_of_length xs (omega arith)

-- The empty buffer keeps the contract of the writers, with room for no byte.
pub empty_writer-IsBufWriter : IsBufWriter empty_writer
unfolding empty_writer check_length_write
empty_writer-IsBufWriter = record {
  valid = λ _. Unit;
  before = λ _. [];
  after = λ _. [];
  fits = λ _ n. n == 0;
  peeks = λ s v. refl;
  stores = λ xs s v h. (tt, refl, ap (λ ys. overlay ys []) (sym (nil-of xs h)), λ n. refl);
  shrinks = λ n m s h e. eq→== n 0 (omega (arith, ==→eq m 0 e));
  holds = λ n s v h. eq→== n 0 (omega arith);
  advances = λ n s v h. (
    empty,
    rw h refl,
    tt,
    nothing_taken n h,
    sym (drop_nil n),
    λ m. ap (λ k. k == 0) {x = m} {y = n + m} (omega (arith, ==→eq n 0 h)),
  );
  extends = λ xs s v h. (
    empty,
    rw h refl,
    tt,
    sym (nil-of xs (omega (arith, ==→eq (length xs) 0 h))),
    sym (drop_nil (length xs)),
    λ m. ap (λ k. k == 0) {x = m} {y = length xs + m} (omega (arith, ==→eq (length xs) 0 h)),
  );
  refuses = λ xs s v h. inr (full_at (length xs) 0, write-refused (length xs) s h, refl);
}

module _ {D W : Type 0} (b : BufMut D W) (w : BufWriter W) where
  copies-nothing :
      (d : W) (s : Empty) (amount : Option ℕ) → copy_io w empty_reader d s amount ≡ copied 0 d s
  unfolding copy_io copy_loop wanted round empty_reader
  copies-nothing d s none = refl
  copies-nothing d s (some zero) = refl
  copies-nothing d s (some (suc n)) = ground arith

  exactly :
      (n : ℕ) (dest : D)
      → call_into dest tt (check_length_read n) ≡ (
          if leb 0 n
          then if 0 == n
            then ret tt (empty, dest)
            else fail (record { read = 0; requested = n; remaining = 0 }) (empty, dest)
          else abort)
  unfolding check_length_read
  exactly n dest = elim (le-or-lt n 0) [
    | inl h ↦ rw (eq→== n 0 (omega arith), eq→== 0 n (omega arith), le→leb 0 n (omega arith)) refl
    | inr h ↦ rw (gt→== n 0 h, lt→== 0 n h, le→leb 0 n (omega arith)) refl
  ]

  -- What is written out for the reader of no bytes is what would be derived for it.
  pub empty_read-eq-derived :
      (n : ℕ) (limit : Option ℕ) (s : Empty) (dest : D)
      → b.inner (b.writer dest) ≡ dest
      → ((empty_read {D = D}).read_into limit (s, dest)
          ≡ read_into b w empty_reader limit (s, dest))
        × ((empty_read {D = D}).read_into_exact n (s, dest)
            ≡ read_into_exact b w empty_reader n (s, dest))
        × ((empty_read {D = D}).skip n s ≡ (derived_reader b w empty_reader).skip n s)
  unfolding empty_read read_into read_into_exact derived_reader empty_reader check_length_read
  empty_read-eq-derived n limit empty dest h = (
    rw (copies-nothing (b.writer dest) empty limit, h) refl,
    rw (copies-nothing (b.writer dest) empty (some n), h) (exactly n dest),
    refl,
  )
