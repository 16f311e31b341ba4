-- ===== src/Tests/Readers.antt =====
-- `Limit` and `Count` of byst/src/io over a slice.
use byst.Prelude.{
  take, ℕ, zero, suc, ◌≡◌, refl, inl, inr, Option, none, some, List, [], ◌∷◌, arith, leb,
  if◌then◌else◌, Bool-cases, length, drop, ok, Outcome, ret, fail,
}
use byst.Io.Interface.{End, end_at, Reader}
use byst.Io.Laws.{IsCursorOf}
use byst.Io.Slice.{slice_reader, slice_cursor, slice_contract}
use byst.Io.Limit.{Limit, limited, limit_reader, limit_view, limit_peek_view, limit_read_into_exact}
use byst.Io.Limit.Cursor.{limit_contents, limit_reader-IsCursorOf}
use byst.Io.Limit.Views.{limit-views}
use byst.Io.Limit.Exact.{
  AtMost, FailsAtMost, IsReader, AccountsExact, limit_read_into_exact-Accounts,
}
use byst.Io.Count.{Count}

abbrev three : List ℕ
three = 1 ∷ 2 ∷ 3 ∷ []

abbrev two_of_three : Limit (List ℕ)
two_of_three = limited three 2

limit_reader-IsCursorOf_example :
    IsCursorOf (limit_reader slice_reader) (λ l. Unit) (λ l. take l.limit l.inner)
unfolding slice_cursor
limit_reader-IsCursorOf_example = limit_reader-IsCursorOf slice_cursor

limit-views_example :
    (v : List ℕ) × (l' : Limit (List ℕ)) × (limit_view slice_reader 1 two_of_three ≡ ret v l')
    × (limit_peek_view slice_reader 1 two_of_three ≡ ok v)
    × Unit {0}
    × (v ≡ 1 ∷ [])
    × (limit_contents slice_cursor l' ≡ 2 ∷ [])
unfolding slice_contract slice_cursor
limit-views_example = limit-views slice_contract 1 two_of_three tt (omega arith)

-- A stream that hands out at most one byte per call, and ends.
abbrev one_byte : Option ℕ → List ℕ × List ℕ → Outcome (List ℕ × List ℕ) End ℕ
one_byte limit ([], d) = ret 0 ([], d)
one_byte none (x ∷ s, d) = ret 1 (s, x ∷ d)
one_byte (some zero) (x ∷ s, d) = ret 0 (x ∷ s, d)
one_byte (some (suc n)) (x ∷ s, d) = ret 1 (s, x ∷ d)

abbrev one_exactly : ℕ → List ℕ × List ℕ → Outcome (List ℕ × List ℕ) End (Unit {0})
one_exactly n ([], d) = fail (end_at n 0) ([], d)
one_exactly zero (x ∷ s, d) = ret tt (x ∷ s, d)
one_exactly (suc n) (x ∷ s, d) =
    fail (record { read = 1; requested = suc n; remaining = length s }) (s, x ∷ d)

abbrev skip_all : ℕ → List ℕ → Outcome (List ℕ) End (Unit {0})
skip_all n s = if leb n (length s) then ret tt (drop n s) else fail (end_at n (length s)) s

abbrev trickle : Reader (List ℕ) (List ℕ) End
trickle = record {
  read_into = one_byte;
  read_into_exact = one_exactly;
  skip = skip_all;
  from_end = λ e. e;
  amount_read = λ e. e.read;
}

one_byte-AtMost : (n : ℕ) (s d : List ℕ) → AtMost trickle.amount_read n (one_byte (some n) (s, d))
one_byte-AtMost n [] d = omega arith
one_byte-AtMost zero (x ∷ s) d = omega arith
one_byte-AtMost (suc n) (x ∷ s) d = omega arith

one_exactly-FailsAtMost :
    (n : ℕ) (s d : List ℕ) → FailsAtMost trickle.amount_read n (one_exactly n (s, d))
one_exactly-FailsAtMost n [] d = omega arith
one_exactly-FailsAtMost zero (x ∷ s) d = tt
one_exactly-FailsAtMost (suc n) (x ∷ s) d = omega arith

skip_all-FailsAtMost : (n : ℕ) (s : List ℕ) → FailsAtMost trickle.amount_read n (skip_all n s)
skip_all-FailsAtMost n s = elim (Bool-cases (leb n (length s))) [
  | inl e ↦ rw e tt
  | inr e ↦ rw e (omega arith)
]

trickle-IsReader : IsReader trickle
trickle-IsReader = record {
  reads = λ n (s, d). one_byte-AtMost n s d;
  exacts = λ n (s, d). one_exactly-FailsAtMost n s d;
  skips = skip_all-FailsAtMost;
  end_read = λ e. refl;
}

limit_read_into_exact-Accounts_example :
    AccountsExact trickle-IsReader 2 2 (limit_read_into_exact trickle 2 (two_of_three, []))
limit_read_into_exact-Accounts_example =
    limit_read_into_exact-Accounts trickle-IsReader 2 (two_of_three, [])

abbrev counted_three : Count (List ℕ)
counted_three = record { inner = three; count = 4 }
