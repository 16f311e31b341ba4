-- ===== src/Io/Count.antt =====
-- byst/src/io/count.rs: a reader that counts the bytes read from another reader, which is a parameter.
pub mod Counts
use byst.Prelude.{ℕ, Option, none, some, checked_add, Outcome, ret, fail, abort, or_abort, and_then}
use byst.Io.Interface.{End, BufReader, Reader, Seek}

-- `struct Count`
pub record Count (S : Type 0) : Type 0 where
  pub inner : S
  pub count : ℕ

abbrev pub counted : {S : Type 0} → S → ℕ → Count S
counted s n = record { inner = s; count = n }

-- `Count::new`, and `impl From<R> for Count<R>`
abbrev pub count_new : {S : Type 0} → S → Count S
count_new s = counted s 0

module _ {S V : Type 0} (r : BufReader S V) where
  -- The view is counted by its length; a count that overflows is a panic, here and below.
  pub count_view : ℕ → Count S → Outcome (Count S) End V
  count_view n c = elim (r.view n c.inner) [
    | ret v s ↦ or_abort (checked_add c.count (r.view_len v)) (λ k. ret v (counted s k))
    | fail e s ↦ fail e (counted s c.count)
    | abort ↦ abort
  ]

  pub count_rest : Count S → Option (V × Count S)
  count_rest c = elim (r.rest c.inner) [
    | none ↦ none
    | some (v, s) ↦ and_then (checked_add c.count (r.view_len v)) (λ k. some (v, counted s k))
  ]

  pub count_advance : ℕ → Count S → Outcome (Count S) End (Unit {0})
  count_advance by c = elim (r.advance by c.inner) [
    | ret _ s ↦ or_abort (checked_add c.count by) (λ k. ret tt (counted s k))
    | fail e s ↦ fail e (counted s c.count)
    | abort ↦ abort
  ]

  -- `impl BufReader for Count<R>`
  unfoldable pub count_reader : BufReader (Count S) V
  unfolding count_view count_rest count_advance
  count_reader = record {
    peek_chunk = λ c. r.peek_chunk c.inner;
    view = count_view;
    peek_view = λ n c. r.peek_view n c.inner;
    rest = count_rest;
    peek_rest = λ c. r.peek_rest c.inner;
    advance = count_advance;
    remaining = λ c. r.remaining c.inner;
    view_len = r.view_len;
  }

module _ {S D E : Type 0} (r : Reader S D E) where
  add_read : ℕ → Outcome (S × D) E ℕ → Outcome (Count S × D) E ℕ
  add_read count (ret n (s, d)) = or_abort (checked_add count n) (λ k. ret n (counted s k, d))
  add_read count (fail e (s, d)) =
      or_abort (checked_add count (r.amount_read e)) (λ k. fail e (counted s k, d))
  add_read count abort = abort

  add_exact : ℕ → ℕ → Outcome (S × D) E (Unit {0}) → Outcome (Count S × D) E (Unit {0})
  add_exact count len (ret _ (s, d)) =
      or_abort (checked_add count len) (λ k. ret tt (counted s k, d))
  add_exact count len (fail e (s, d)) =
      or_abort (checked_add count (r.amount_read e)) (λ k. fail e (counted s k, d))
  add_exact count len abort = abort

  add_skip : ℕ → ℕ → Outcome S E (Unit {0}) → Outcome (Count S) E (Unit {0})
  add_skip count amount (ret _ s) = or_abort (checked_add count amount) (λ k. ret tt (counted s k))
  add_skip count amount (fail e s) =
      or_abort (checked_add count (r.amount_read e)) (λ k. fail e (counted s k))
  add_skip count amount abort = abort

  -- `impl Reader for Count<R>`
  unfoldable pub count_read : Reader (Count S) D E
  unfolding add_read add_exact add_skip
  count_read = record {
    read_into = λ limit x. add_read x.0.count (r.read_into limit (x.0.inner, x.1));
    read_into_exact = λ len x. add_exact x.0.count len (r.read_into_exact len (x.0.inner, x.1));
    skip = λ amount c. add_skip c.count amount (r.skip amount c.inner);
    from_end = r.from_end;
    amount_read = r.amount_read;
  }

-- `impl Seek for Count<R>`. As in `Limit`, the count of the position is not restored.
unfoldable pub count_seek : {S P : Type 0} → Seek S P → Seek (Count S) (Count P)
count_seek k = record {
  tell = λ c. counted (k.tell c.inner) c.count;
  seek = λ position c.
      let (old, s) = k.seek position.inner c.inner in (counted old c.count, counted s c.count);
}
