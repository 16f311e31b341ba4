-- ===== src/Arc/Count.antt =====
-- `AtomicRefCount` of byst/src/buf/arc_buf.rs: one word counts the references, twice each, and
-- its lowest bit says whether there is a `Reclaim`. An operation on the atomic word is a function from
-- the word to what it returns and the word it leaves.
use byst.Prelude.{
  ℕ, ◌+◌, ◌-◌, ◌*◌, ◌/◌, ◌%◌, ◌<◌, ◌≡◌, ap₂, Bool, true, false, not, Option, none, some, arith, leb,
  ◌==◌, if◌then◌else◌, usize_mod,
}

-- `AtomicRefCount::new`; the bit that `|` sets is clear in the shifted count.
unfoldable pub new : ℕ → Bool → ℕ
new ref_count reclaim = ref_count * 2 % usize_mod + (if reclaim then 1 else 0)

-- `increment`, which wraps as `fetch_add` does
unfoldable pub increment : ℕ → ℕ
increment word = (word + 2) % usize_mod

-- `decrement`: whether the buffer must be deallocated; `none` is the failed assertion.
unfoldable pub decrement : ℕ → Option Bool × ℕ
decrement word =
    (if leb 2 word then some (word == 2) else none, (word + (usize_mod - 2)) % usize_mod)

-- `make_unreclaimable`
unfoldable pub make_unreclaimable : ℕ → Bool × ℕ
make_unreclaimable word = (word == 1, word - word % 2)

-- `try_reclaim`
unfoldable pub try_reclaim : ℕ → Bool × ℕ
try_reclaim word = if word == 1 then (true, 3) else (false, word)

-- `can_reclaim`
unfoldable pub can_reclaim : ℕ → Bool
can_reclaim word = word == 1

-- `enum RefCount`
pub data RefCount : Type 0 where
  static : RefCount
  counted : ℕ → Bool → RefCount

-- `RefCount::from_atomic`
unfoldable pub from_atomic : ℕ → RefCount
from_atomic word = counted (word / 2) (not (word % 2 == 0))

-- `RefCount::ref_count`, `can_be_reclaimed` and `is_static`
abbrev pub ref_count : RefCount → Option ℕ
ref_count static = none
ref_count (counted n _) = some n

abbrev pub can_be_reclaimed : RefCount → Bool
can_be_reclaimed static = false
can_be_reclaimed (counted _ reclaim) = reclaim

abbrev pub is_static : RefCount → Bool
is_static static = true
is_static (counted _ _) = false

-- the word for `refs` references and, as a number, a `Reclaim`
abbrev pub bit : Bool → ℕ
bit true = 1
bit false = 0

pub from_atomic-new : (n : ℕ) (b : Bool) → n * 2 < usize_mod → from_atomic (new n b) ≡ counted n b
unfolding from_atomic new
from_atomic-new n true h = ap₂ counted (omega arith) (ground arith)
from_atomic-new n false h = ap₂ counted (omega arith) (ground arith)
