-- ===== src/Io/Limit/Exact.antt =====
-- A limited reader as a `Reader`: what it reads and what is left of the limit make up the limit.
use byst.Prelude.{
  ℕ, ◌+◌, ◌-◌, ◌≤◌, min, ◌≡◌, subst, inl, inr, Option, none, some, arith, lt→ltb, le→ltb, le→leb,
  le-or-lt, Outcome, ret, fail, abort,
}
use byst.Io.Interface.{End, Reader}
use byst.Io.Limit.{
  Limit, limit_read_into, limit_read_into_exact, limit_skip, skip_remaining, read_limit,
  charge_read, charge_exact, charge_skip,
}

-- A call that was asked for at most `n` bytes reads no more, and does not panic.
abbrev pub AtMost : {T E : Type 0} → (E → ℕ) → ℕ → Outcome T E ℕ → Type 0
AtMost amount n (ret k _) = k ≤ n
AtMost amount n (fail e _) = amount e ≤ n
AtMost amount n abort = ⊥

abbrev pub FailsAtMost : {T E : Type 0} → (E → ℕ) → ℕ → Outcome T E (Unit {0}) → Type 0
FailsAtMost amount n (ret _ _) = Unit
FailsAtMost amount n (fail e _) = amount e ≤ n
FailsAtMost amount n abort = ⊥

-- The documented behaviour of an implementation of `Reader` and of its `ReadError`: a limit is kept,
-- and an error tells how much was read.
pub record IsReader {S D E : Type 0} (r : Reader S D E) : Type 0 where
  pub reads : (n : ℕ) (x : S × D) → AtMost r.amount_read n (r.read_into (some n) x)
  pub exacts : (n : ℕ) (x : S × D) → FailsAtMost r.amount_read n (r.read_into_exact n x)
  pub skips : (n : ℕ) (s : S) → FailsAtMost r.amount_read n (r.skip n s)
  pub end_read : (e : End) → r.amount_read (r.from_end e) ≡ e.read

module _ {S D E : Type 0} {r : Reader S D E} (c : IsReader r) where
  -- The number of bytes read and the limit that is left make up the limit that there was.
  abbrev pub Accounts : (limit : ℕ) → Outcome (Limit S × D) E ℕ → Type 0
  Accounts limit (ret n (l, _)) = n + l.limit ≡ limit
  Accounts limit (fail e (l, _)) = r.amount_read e + l.limit ≡ limit
  Accounts limit abort = ⊥

  abbrev pub AccountsExact : (limit len : ℕ) → Outcome (Limit S × D) E (Unit {0}) → Type 0
  AccountsExact limit len (ret _ (l, _)) = len + l.limit ≡ limit
  AccountsExact limit len (fail e (l, _)) = r.amount_read e + l.limit ≡ limit
  AccountsExact limit len abort = ⊥

  abbrev pub AccountsSkip : (limit amount : ℕ) → Outcome (Limit S) E (Unit {0}) → Type 0
  AccountsSkip limit amount (ret _ l) = amount + l.limit ≡ limit
  AccountsSkip limit amount (fail e l) = r.amount_read e + l.limit ≡ limit
  AccountsSkip limit amount abort = ⊥

  charge_read-Accounts :
      (limit n : ℕ) (out : Outcome (S × D) E ℕ)
      → n ≤ limit
      → AtMost r.amount_read n out
      → Accounts limit (charge_read r limit out)
  unfolding charge_read
  charge_read-Accounts limit n (ret k x) h a = rw (le→leb k limit (omega arith)) (omega arith)
  charge_read-Accounts limit n (fail e x) h a =
      rw (le→leb (r.amount_read e) limit (omega arith)) (omega arith)
  charge_read-Accounts limit n abort h a = a

  read_limit-le : (self : ℕ) (limit : Option ℕ) → read_limit r self limit ≤ self
  unfolding read_limit
  read_limit-le self none = omega arith
  read_limit-le self (some n) = omega arith

  -- `read_into` of a limited reader, whose inner reader keeps to the amounts asked for and tells
  -- in an error how much it read, never panics, with any limit of its own or none; the bytes
  -- that it read, those of an error included, and the limit that it leaves add up to the limit
  -- that there was.
  pub limit_read_into-Accounts :
      (limit : Option ℕ) (x : Limit S × D) → Accounts x.0.limit (limit_read_into r limit x)
  unfolding limit_read_into
  limit_read_into-Accounts limit (l, d) =
      charge_read-Accounts l.limit _ _ (read_limit-le l.limit limit) (c.reads _ (l.inner, d))

  charge_exact-Accounts :
      (limit len : ℕ) (out : Outcome (S × D) E (Unit {0}))
      → len ≤ limit
      → FailsAtMost r.amount_read len out
      → AccountsExact limit len (charge_exact r limit len out)
  unfolding charge_exact
  charge_exact-Accounts limit len (ret _ x) h a = rw (le→leb len limit h) (omega arith)
  charge_exact-Accounts limit len (fail e x) h a =
      rw (le→leb (r.amount_read e) limit (omega arith)) (omega arith)
  charge_exact-Accounts limit len abort h a = a

  -- `read_into_exact` of a limited reader, whose inner reader keeps to the amounts asked for and
  -- tells in an error how much it read, never panics; the bytes that it read, those of an error
  -- included, and the limit that it leaves add up to the limit that there was.
  pub limit_read_into_exact-Accounts :
      (len : ℕ) (x : Limit S × D) → AccountsExact x.0.limit len (limit_read_into_exact r len x)
  unfolding limit_read_into_exact
  limit_read_into_exact-Accounts len (l, d) = elim (le-or-lt len l.limit) [
    | inl h ↦ rw (le→ltb _ _ h) (charge_exact-Accounts l.limit len _ h (c.exacts len (l.inner, d)))
    | inr h ↦ rw (lt→ltb _ _ h, c.end_read) (omega arith)
  ]

  charge_skip-Accounts :
      (limit amount : ℕ) (out : Outcome S E (Unit {0}))
      → amount ≤ limit
      → FailsAtMost r.amount_read amount out
      → AccountsSkip limit amount (charge_skip r limit (limit - amount) out)
  unfolding charge_skip
  charge_skip-Accounts limit amount (ret _ s) h a = omega arith
  charge_skip-Accounts limit amount (fail e s) h a =
      rw (le→leb (r.amount_read e) limit (omega arith)) (omega arith)
  charge_skip-Accounts limit amount abort h a = a

  -- `skip` skips no more than the limit, and takes what it skipped off the limit, also on an error.
  pub limit_skip-Accounts :
      (amount : ℕ) (l : Limit S) → AccountsSkip l.limit (min l.limit amount) (limit_skip r amount l)
  unfolding limit_skip
  limit_skip-Accounts amount l =
      charge_skip-Accounts l.limit (min l.limit amount) _ (omega arith) (c.skips _ l.inner)

  -- `skip_remaining` does the same for all of the limit.
  pub skip_remaining-Accounts : (l : Limit S) → AccountsSkip l.limit l.limit (skip_remaining r l)
  unfolding skip_remaining
  skip_remaining-Accounts l =
      subst (λ k. AccountsSkip l.limit l.limit (charge_skip r l.limit k (r.skip l.limit l.inner)))
        {x = l.limit - l.limit} {y = 0} (omega arith)
        (charge_skip-Accounts l.limit l.limit _ (omega arith) (c.skips l.limit l.inner))
