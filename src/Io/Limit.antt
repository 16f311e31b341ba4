-- ===== src/Io/Limit.antt =====
-- byst/src/io/limit.rs: a reader of at most `limit` bytes of another reader, which is a parameter.
pub mod Cursor
pub mod Views
pub mod Exact
use byst.Prelude.{
  ℕ, zero, suc, ◌+◌, ◌-◌, ◌*◌, ◌/◌, ◌%◌, ◌^◌, ◌≤◌, ◌<◌, min, max, ◌≡◌, refl, sym, ap, ap₂, ◌∙◌,
  subst, ◌≢◌, ◌↔◌, ◌⊎◌, inl, inr, Bool, true, false, not, ◌&&◌, ◌||◌, Option, none, some, List, [],
  ◌∷◌, ◌++◌, map, reverse, append-nil, append_assoc, arith, ltb, leb, ◌==◌, if◌then◌else◌, ltb→lt,
  lt→ltb, le→ltb, leb→le, le→leb, lt→leb, eq→==, Bool-cases, le-or-lt, Option-cases, usize_mod,
  checked_add, checked_sub, length, get_elem?, take, drop, replicate, length-append,
  take-append-drop, take-add, drop-take, length-take, length-drop, length-replicate, drop_all,
  take_all, drop_nil, take_nil, drop-drop, take-append, drop-append, take-append_le, drop-append_le,
  take-take, eq-nil_of_length, overlay, overlay_at, length-overlay, length-overlay_at, take-front,
  drop-front, take-overlay_at, drop-overlay_at, drop-overlay, all_kept, overlay-extend,
  take-overlay_at_end, drop-overlay_at_end, take-pad, drop-pad, Result, ok, err, panic, Outcome,
  ret, fail, abort, or_panic, or_abort, ◌>>=◌, map_err, map_fail, within,
}
use byst.Io.Interface.{End, BufReader, Reader, Seek}

-- `struct Limit`
pub record Limit (S : Type 0) : Type 0 where
  pub inner : S
  pub limit : ℕ

-- `Limit::new`
abbrev pub limited : {S : Type 0} → S → ℕ → Limit S
limited s n = record { inner = s; limit = n }

module _ {S V : Type 0} (r : BufReader S V) where
  pub limit_remaining : Limit S → ℕ
  limit_remaining l = min l.limit (r.remaining l.inner)

  -- the error of a request above the limit
  pub limit_end : ℕ → Limit S → End
  unfolding limit_remaining
  limit_end n l = record { read = 0; requested = n; remaining = limit_remaining l }

  pub limit_peek_chunk : Limit S → Option (List ℕ)
  limit_peek_chunk l = if l.limit == 0 then none else elim (r.peek_chunk l.inner) [
    | none ↦ none
    | some chunk ↦ some (take (min (length chunk) l.limit) chunk)
  ]

  -- The limit goes down before the inner reader is asked.
  pub limit_view : ℕ → Limit S → Outcome (Limit S) End V
  unfolding limit_end
  limit_view n l =
      if ltb l.limit n
      then fail (limit_end n l) l
      else within (λ s. limited s (l.limit - n)) (r.view n l.inner)

  pub limit_peek_view : ℕ → Limit S → Result End V
  unfolding limit_end
  limit_peek_view n l = if ltb l.limit n then err (limit_end n l) else r.peek_view n l.inner

  pub limit_rest : Limit S → Option (V × Limit S)
  limit_rest l = elim (r.view l.limit l.inner) [
    | ret v s ↦ some (v, limited s 0)
    | fail _ s ↦ elim (r.rest s) [ none ↦ none | some (v, s') ↦ some (v, limited s' l.limit) ]
    | abort ↦ none
  ]

  pub limit_peek_rest : Limit S → Option V
  limit_peek_rest l = elim (r.peek_view l.limit l.inner) [
    | ok v ↦ some v
    | err _ ↦ r.peek_rest l.inner
    | panic ↦ none
  ]

  pub limit_advance : ℕ → Limit S → Outcome (Limit S) End (Unit {0})
  unfolding limit_end
  limit_advance by l =
      if ltb l.limit by then fail (limit_end by l) l else elim (r.advance by l.inner) [
        | ret _ s ↦ ret tt (limited s (l.limit - by))
        | fail e s ↦ fail e (limited s l.limit)
        | abort ↦ abort
      ]

  -- `impl BufReader for Limit<R>`
  unfoldable pub limit_reader : BufReader (Limit S) V
  unfolding limit_peek_chunk limit_view limit_peek_view limit_rest limit_peek_rest limit_advance
      limit_remaining
  limit_reader = record {
    peek_chunk = limit_peek_chunk;
    view = limit_view;
    peek_view = limit_peek_view;
    rest = limit_rest;
    peek_rest = limit_peek_rest;
    advance = limit_advance;
    remaining = limit_remaining;
    view_len = r.view_len;
  }

module _ {S D E : Type 0} (r : Reader S D E) where
  read_limit : ℕ → Option ℕ → ℕ
  read_limit self none = self
  read_limit self (some n) = min self n

  -- What a call of the inner reader read is taken off the limit, which panics below 0.
  charge_read : ℕ → Outcome (S × D) E ℕ → Outcome (Limit S × D) E ℕ
  charge_read limit (ret n (s, d)) = or_abort (checked_sub limit n) (λ k. ret n (limited s k, d))
  charge_read limit (fail e (s, d)) =
      or_abort (checked_sub limit (r.amount_read e)) (λ k. fail e (limited s k, d))
  charge_read limit abort = abort

  charge_exact : ℕ → ℕ → Outcome (S × D) E (Unit {0}) → Outcome (Limit S × D) E (Unit {0})
  charge_exact limit len (ret _ (s, d)) =
      or_abort (checked_sub limit len) (λ k. ret tt (limited s k, d))
  charge_exact limit len (fail e (s, d)) =
      or_abort (checked_sub limit (r.amount_read e)) (λ k. fail e (limited s k, d))
  charge_exact limit len abort = abort

  -- `left` is the limit that a success leaves.
  charge_skip : ℕ → ℕ → Outcome S E (Unit {0}) → Outcome (Limit S) E (Unit {0})
  charge_skip limit left (ret _ s) = ret tt (limited s left)
  charge_skip limit left (fail e s) =
      or_abort (checked_sub limit (r.amount_read e)) (λ k. fail e (limited s k))
  charge_skip limit left abort = abort

  pub limit_read_into : Option ℕ → Limit S × D → Outcome (Limit S × D) E ℕ
  unfolding charge_read read_limit
  limit_read_into limit (l, dest) =
      charge_read l.limit (r.read_into (some (read_limit l.limit limit)) (l.inner, dest))

  pub limit_read_into_exact : ℕ → Limit S × D → Outcome (Limit S × D) E (Unit {0})
  unfolding charge_exact
  limit_read_into_exact len (l, dest) =
      if ltb l.limit len
      then fail (r.from_end (record { read = 0; requested = len; remaining = l.limit })) (l, dest)
      else charge_exact l.limit len (r.read_into_exact len (l.inner, dest))

  -- An amount above the limit is cut down to it.
  pub limit_skip : ℕ → Limit S → Outcome (Limit S) E (Unit {0})
  unfolding charge_skip
  limit_skip amount l =
      charge_skip l.limit (l.limit - min l.limit amount) (r.skip (min l.limit amount) l.inner)

  -- `Limit::skip_remaining`
  pub skip_remaining : Limit S → Outcome (Limit S) E (Unit {0})
  unfolding charge_skip
  skip_remaining l = charge_skip l.limit 0 (r.skip l.limit l.inner)

  -- `impl Reader for Limit<R>`
  unfoldable pub limit_read : Reader (Limit S) D E
  unfolding limit_read_into limit_read_into_exact limit_skip
  limit_read = record {
    read_into = limit_read_into;
    read_into_exact = limit_read_into_exact;
    skip = limit_skip;
    from_end = r.from_end;
    amount_read = r.amount_read;
  }

-- `impl Seek for Limit<R>`. The position that is shadowed in `seek` gets the reader's own limit, and
-- the reader keeps it.
unfoldable pub limit_seek : {S P : Type 0} → Seek S P → Seek (Limit S) (Limit P)
limit_seek k = record {
  tell = λ l. limited (k.tell l.inner) l.limit;
  seek = λ position l.
      let (old, s) = k.seek position.inner l.inner in (limited old l.limit, limited s l.limit);
}
