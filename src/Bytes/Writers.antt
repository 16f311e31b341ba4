-- ===== src/Bytes/Writers.antt =====
-- Writers behind a trait object, of byst/src/bytes/impl.rs and byst/src/bytes/view.rs.
use byst.Prelude.{
  ℕ, ◌+◌, ◌-◌, ◌≡◌, ap, ◌⊎◌, inl, inr, true, false, Option, List, ◌++◌, length, take, drop,
  replicate, Outcome, ret, fail, abort, within,
}
use byst.Io.Interface.{Full, BufWriter}
use byst.Io.Laws.{IsBufWriter}

-- `trait WriterImpl`; bytes are put into the chunk that is handed out by `store`.
pub record WriterImpl (W : Type 0) : Type 0 where
  pub peek_chunk_mut : W → Option (List ℕ)
  pub store : List ℕ → W → W
  pub advance : ℕ → W → Outcome W Full (Unit {0})
  pub remaining : W → ℕ
  pub extend : List ℕ → W → Outcome W Full (Unit {0})

-- `impl WriterImpl` for `&mut [u8]`, the writer of an `ArcBufMut` and `Empty`, each of which hands
-- the calls on to its `BufWriter`
unfoldable pub writer_impl : {W : Type 0} → BufWriter W → WriterImpl W
writer_impl w = record {
  peek_chunk_mut = w.peek_chunk_mut;
  store = w.store;
  advance = w.advance;
  remaining = w.remaining;
  extend = w.extend;
}

-- `struct ViewMutWriter`
pub record ViewMutWriter (W : Type 0) : Type 0 where
  pub inner : W

abbrev pub from_impl : {W : Type 0} → W → ViewMutWriter W
from_impl d = record { inner = d }

-- `impl BufWriter for ViewMutWriter`, whose views are `todo!()`
unfoldable pub view_mut_writer : {W : Type 0} → WriterImpl W → BufWriter (ViewMutWriter W)
view_mut_writer i = record {
  peek_chunk_mut = λ d. i.peek_chunk_mut d.inner;
  store = λ xs d. from_impl (i.store xs d.inner);
  view_mut = λ _ _. abort;
  peek_view_mut = λ _ _. abort;
  rest_mut = λ _. abort;
  peek_rest_mut = λ _. abort;
  advance = λ n d. within from_impl (i.advance n d.inner);
  remaining = λ d. i.remaining d.inner;
  extend = λ xs d. within from_impl (i.extend xs d.inner);
}

module _ {W : Type 0} {w : BufWriter W} (c : IsBufWriter w) where
  open c use {valid, before, after, fits}

  abbrev erased : BufWriter (ViewMutWriter W)
  erased = view_mut_writer (writer_impl w)

  erased-advances :
      (n : ℕ) (d : ViewMutWriter W)
      → valid d.inner
      → fits d.inner n ≡ true
      → (d' : ViewMutWriter W) × (erased.advance n d ≡ ret tt d')
        × valid d'.inner
        × (before d'.inner
            ≡ before d.inner
              ++ (take n (after d.inner) ++ replicate (n - length (after d.inner)) 0))
        × (after d'.inner ≡ drop n (after d.inner))
        × ((m : ℕ) → fits d'.inner m ≡ fits d.inner (n + m))
  unfolding view_mut_writer writer_impl
  erased-advances n d v h =
      let (t, e, v', b, a, f) = c.advances n d.inner v h in
      (from_impl t, ap (within from_impl) e, v', b, a, f)

  erased-extends :
      (xs : List ℕ) (d : ViewMutWriter W)
      → valid d.inner
      → fits d.inner (length xs) ≡ true
      → (d' : ViewMutWriter W) × (erased.extend xs d ≡ ret tt d')
        × valid d'.inner
        × (before d'.inner ≡ before d.inner ++ xs)
        × (after d'.inner ≡ drop (length xs) (after d.inner))
        × ((m : ℕ) → fits d'.inner m ≡ fits d.inner (length xs + m))
  unfolding view_mut_writer writer_impl
  erased-extends xs d v h =
      let (t, e, v', b, a, f) = c.extends xs d.inner v h in
      (from_impl t, ap (within from_impl) e, v', b, a, f)

  erased-refuses :
      (xs : List ℕ) (d : ViewMutWriter W)
      → valid d.inner
      → fits d.inner (length xs) ≡ false
      → (erased.extend xs d ≡ abort)
        ⊎ ((e : Full) × (erased.extend xs d ≡ fail e d) × (e.written ≡ 0))
  unfolding view_mut_writer writer_impl
  erased-refuses xs d v h = elim (c.refuses xs d.inner v h) [
    | inl e ↦ inl (ap (within from_impl) e)
    | inr (full, e, z) ↦ inr (full, ap (within from_impl) e, z)
  ]

  -- A writer behind a trait object keeps the contract that it keeps by itself.
  pub view_mut_writer-IsBufWriter : IsBufWriter erased
  unfolding view_mut_writer writer_impl
  view_mut_writer-IsBufWriter = record {
    valid = λ d. valid d.inner;
    before = λ d. before d.inner;
    after = λ d. after d.inner;
    fits = λ d. fits d.inner;
    peeks = λ d v. c.peeks d.inner v;
    stores = λ xs d v h. c.stores xs d.inner v h;
    shrinks = λ n m d h. c.shrinks n m d.inner h;
    holds = λ n d v h. c.holds n d.inner v h;
    advances = erased-advances;
    extends = erased-extends;
    refuses = erased-refuses;
  }
