-- ===== src/Io/Reads.antt =====
-- The `Reader` that `impl_me!` of byst/src/util.rs derives from a `BufReader`, for a destination
-- buffer whose writer keeps its contract.
use byst.Prelude.{
  ℕ, ◌≤◌, min, ◌≡◌, refl, sym, ap, ◌∙◌, inl, inr, Option, some, List, ◌++◌, arith, leb, ◌==◌,
  if◌then◌else◌, le→leb, lt→leb, eq→==, lt→==, le-or-lt, length, take, drop, drop_all, take_all,
  Outcome, ret, fail, abort,
}
use byst.Io.Interface.{End, BufReader, BufWriter, Reader}
use byst.Io.Laws.{IsCursor, IsBufWriter}
use byst.Buf.{BufMut}
use byst.Copy.{Copied, copied, panicked, out_of_fuel, copy_io}
use byst.Copy.Amount.{copy_io-up_to}

module _ {D W S V : Type 0} (b : BufMut D W) (w : BufWriter W) (r : BufReader S V) where
  -- the count, and what the call leaves of the reader and the destination
  read_count : Copied W S → Outcome (S × D) End ℕ
  read_count (copied n d s) = ret n (s, b.inner d)
  read_count panicked = abort
  read_count out_of_fuel = abort

  read_exactly : ℕ → Copied W S → Outcome (S × D) End (Unit {0})
  read_exactly length (copied n d s) =
      if leb n length
      then if n == length
        then ret tt (s, b.inner d)
        else fail (record { read = n; requested = length; remaining = 0 }) (s, b.inner d)
      else abort
  read_exactly length panicked = abort
  read_exactly length out_of_fuel = abort

  unfoldable pub read_into : Option ℕ → S × D → Outcome (S × D) End ℕ
  unfolding read_count
  read_into limit (s, dest) = read_count (copy_io w r (b.writer dest) s limit)

  unfoldable pub read_into_exact : ℕ → S × D → Outcome (S × D) End (Unit {0})
  unfolding read_exactly
  read_into_exact length (s, dest) =
      read_exactly length (copy_io w r (b.writer dest) s (some length))

  -- `impl Reader for $ty`; `End` is its own error.
  unfoldable pub derived_reader : Reader S D End
  unfolding read_into read_into_exact
  derived_reader = record {
    read_into = read_into;
    read_into_exact = read_into_exact;
    skip = r.advance;
    from_end = λ e. e;
    amount_read = λ e. e.read;
  }

pub cut_short : (n : ℕ) (xs : List ℕ) → take (min n (length xs)) xs ≡ take n xs
cut_short n xs = elim (le-or-lt n (length xs)) [
  | inl h ↦ ap (λ k. take k xs) {x = min n (length xs)} (omega arith)
  | inr h ↦ take_all (min n (length xs)) xs (omega arith) ∙ sym (take_all n xs (omega arith))
]

pub drop_short : (n : ℕ) (xs : List ℕ) → drop (min n (length xs)) xs ≡ drop n xs
drop_short n xs = elim (le-or-lt n (length xs)) [
  | inl h ↦ ap (λ k. drop k xs) {x = min n (length xs)} (omega arith)
  | inr h ↦ drop_all (min n (length xs)) xs (omega arith) ∙ sym (drop_all n xs (omega arith))
]

module _ {D W S V : Type 0} {w : BufWriter W} {r : BufReader S V} (b : BufMut D W)
    (lw : IsBufWriter w) (lr : IsCursor r) where
  open lw use {before, after, fits}
  open lr use {contents}

  exactly :
      (n m : ℕ) (s : S) (d : W)
      → read_exactly b w r n (copied (min n m) d s) ≡ (
          if leb n m
          then ret tt (s, b.inner d)
          else fail (record { read = m; requested = n; remaining = 0 }) (s, b.inner d))
  unfolding read_exactly
  exactly n m s d = elim (le-or-lt n m) [
    | inl k ↦
        let e : min n m ≡ n = omega arith in
        rw (le→leb n m k, e, le→leb n n (omega arith), eq→== n n refl) refl
    | inr k ↦
        let e : min n m ≡ m = omega arith in
        rw (lt→leb n m k, e, le→leb m n (omega arith), lt→== m n k) refl
  ]

  -- The derived `read_into_exact` of `n` bytes, into a buffer whose writer keeps its contract
  -- and has at least `n` bytes ahead of its cursor, puts the first bytes that the reader has, up
  -- to `n`, over the front of what is after the writer's cursor, and takes them from the reader;
  -- it succeeds exactly if the reader has `n`, and else the error has the number read.
  pub read_into_exact_lem :
      (n : ℕ) (s : S) (dest : D)
      → lw.valid (b.writer dest)
      → lr.valid s
      → n ≤ length (after (b.writer dest))
      → (s' : S) × (d : W) × (read_into_exact b w r n (s, dest) ≡ (
          if leb n (length (contents s))
          then ret tt (s', b.inner d)
          else fail
              (record { read = length (contents s); requested = n; remaining = 0 })
              (s', b.inner d)))
        × (before d ≡ before (b.writer dest) ++ take n (contents s))
        × (after d ≡ drop (min n (length (contents s))) (after (b.writer dest)))
        × (contents s' ≡ drop n (contents s))
  unfolding read_into_exact
  read_into_exact_lem n s dest v u h =
      let c = copy_io-up_to lw lr n (b.writer dest) s v u h in
      (
        c.s',
        c.d',
        ap (read_exactly b w r n) c.ends ∙ exactly n (length (contents s)) c.s' c.d',
        c.written ∙ ap (before (b.writer dest) ++◌) (cut_short n (contents s)),
        c.ahead,
        c.read ∙ drop_short n (contents s),
      )
