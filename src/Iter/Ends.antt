-- ===== src/Iter/Ends.antt =====
-- `IsEndIter` of byst/src/util.rs: each item is returned with a mark for the first and for the last.
pub mod Marks
use byst.Prelude.{
  ◌≡◌, refl, sym, ap, ◌∙◌, Bool, true, false, not, Option, none, some, List, [], ◌∷◌, ◌++◌,
  append_assoc,
}
use byst.Iter.{DoubleEnded, Front, Back, IsDeque}
use byst.Iter.Peekable.{
  Peekable, first, last, peekable, peek, peek_back, next, next_back, peekable_items,
  peekable-fronts, peekable-backs, peek-first, peek_back-last,
}

-- `struct IsEnd`
pub record IsEnd (A : Type 0) : Type 0 where
  pub is_start : Bool
  pub is_end : Bool
  pub item : A

-- `struct IsEndIter`
pub record IsEndIter (I A : Type 0) : Type 0 where
  pub inner : Peekable I A
  pub iterated_from_start : Bool
  pub iterated_from_end : Bool

abbrev pub is_none : {A : Type 0} → Option A → Bool
is_none none = true
is_none (some _) = false

-- `IsEndIter::new`
abbrev pub is_end_iter : {I A : Type 0} → I → IsEndIter I A
is_end_iter i = record {
  inner = peekable i;
  iterated_from_start = false;
  iterated_from_end = false;
}

module _ {I A : Type 0} (d : DoubleEnded I A) where
  -- `next`, after the inner iterator's
  pub mark_front : Option A × Peekable I A → Bool → Bool → Option (IsEnd A) × IsEndIter I A
  mark_front (none, p) s e =
      (none, record { inner = p; iterated_from_start = s; iterated_from_end = e })
  mark_front (some x, p) s true = (
    some (record { is_start = not s; is_end = false; item = x }),
    record { inner = p; iterated_from_start = true; iterated_from_end = true },
  )
  mark_front (some x, p) s false =
      let q = peek d p in
      (
        some (record { is_start = not s; is_end = is_none q.0; item = x }),
        record { inner = q.1; iterated_from_start = true; iterated_from_end = false },
      )

  unfoldable pub next_marked : IsEndIter I A → Option (IsEnd A) × IsEndIter I A
  unfolding mark_front
  next_marked t = mark_front (next d t.inner) t.iterated_from_start t.iterated_from_end

  -- `next_back`, after the inner iterator's
  pub mark_back : Option A × Peekable I A → Bool → Bool → Option (IsEnd A) × IsEndIter I A
  mark_back (none, p) s e =
      (none, record { inner = p; iterated_from_start = s; iterated_from_end = e })
  mark_back (some x, p) true e = (
    some (record { is_start = false; is_end = not e; item = x }),
    record { inner = p; iterated_from_start = true; iterated_from_end = true },
  )
  mark_back (some x, p) false e =
      let q = peek_back d p in
      (
        some (record { is_start = is_none q.0; is_end = not e; item = x }),
        record { inner = q.1; iterated_from_start = false; iterated_from_end = true },
      )

  unfoldable pub next_back_marked : IsEndIter I A → Option (IsEnd A) × IsEndIter I A
  unfolding mark_back
  next_back_marked t = mark_back (next_back d t.inner) t.iterated_from_start t.iterated_from_end
