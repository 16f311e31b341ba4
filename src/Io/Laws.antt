-- ===== src/Io/Laws.antt =====
-- What the traits of byst/src/io promise: a reader is the bytes that are left of it, a writer the
-- bytes before its cursor and those after it.
use byst.Prelude.{
  ℕ, ◌+◌, ◌-◌, ◌≤◌, ◌<◌, ◌≡◌, ◌⊎◌, Bool, true, false, Option, none, some, List, [], ◌++◌, length,
  take, drop, replicate, overlay, ok, err, ret, fail, abort,
}
use byst.Io.Interface.{Full, end_at, BufReader, BufWriter}

-- A chunk is a nonempty part at the front, and there is none only where nothing is left.
abbrev pub Peeks : Option (List ℕ) → List ℕ → Type 0
Peeks none xs = xs ≡ []
Peeks (some c) xs = (0 < length c) × (c ≡ take (length c) xs) × (length c ≤ length xs)

-- What a reader promises of its position, on the states that keep its invariant `valid`: it is the
-- bytes `contents`, of which it shows a chunk at the front and steps over the first ones.
pub record IsCursor {S V : Type 0} (r : BufReader S V) : Type 1 where
  pub valid : S → Type 0
  pub contents : S → List ℕ
  pub peeks : (s : S) → valid s → Peeks (r.peek_chunk s) (contents s)
  pub advances :
      (n : ℕ) (s : S)
      → valid s
      → n ≤ length (contents s)
      → (s' : S) × (r.advance n s ≡ ret tt s') × valid s' × (contents s' ≡ drop n (contents s))
  pub ends :
      (n : ℕ) (s : S)
      → valid s
      → length (contents s) < n
      → r.advance n s ≡ fail (end_at n (length (contents s))) s
  pub remains : (s : S) → valid s → r.remaining s ≡ length (contents s)

-- What a reader promises of its views besides: they are the first bytes, or the rest.
pub record IsBufReader {S V : Type 0} (r : BufReader S V) : Type 1 where
  pub cursor : IsCursor r
  pub open cursor use *
  pub bytes : V → List ℕ
  pub len_lem : (v : V) → r.view_len v ≡ length (bytes v)
  pub views :
      (n : ℕ) (s : S)
      → valid s
      → n ≤ length (contents s)
      → (v : V) × (s' : S) × (r.view n s ≡ ret v s')
        × (r.peek_view n s ≡ ok v)
        × valid s'
        × (bytes v ≡ take n (contents s))
        × (contents s' ≡ drop n (contents s))
  pub view_ends :
      (n : ℕ) (s : S)
      → valid s
      → length (contents s) < n
      → (r.view n s ≡ fail (end_at n (length (contents s))) s)
        × (r.peek_view n s ≡ err (end_at n (length (contents s))))
  pub rests :
      (s : S)
      → valid s
      → (v : V) × (s' : S) × (r.rest s ≡ some (v, s'))
        × (r.peek_rest s ≡ some v)
        × valid s'
        × (bytes v ≡ contents s)
        × (contents s' ≡ [])

-- A writer's contract: it is the bytes before the cursor, those after it, and whether `n` more can
-- be written, which `fits` says.
pub record IsBufWriter {W : Type 0} (w : BufWriter W) : Type 1 where
  pub valid : W → Type 0
  pub before : W → List ℕ
  pub after : W → List ℕ
  pub fits : W → ℕ → Bool
  pub peeks : (s : W) → valid s → Peeks (w.peek_chunk_mut s) (after s)
  pub stores :
      (xs : List ℕ) (s : W)
      → valid s
      → length xs ≤ length (after s)
      → valid (w.store xs s)
        × (before (w.store xs s) ≡ before s)
        × (after (w.store xs s) ≡ overlay xs (after s))
        × ((n : ℕ) → fits (w.store xs s) n ≡ fits s n)
  pub shrinks : (n m : ℕ) (s : W) → n ≤ m → fits s m ≡ true → fits s n ≡ true
  pub holds : (n : ℕ) (s : W) → valid s → n ≤ length (after s) → fits s n ≡ true
  pub advances :
      (n : ℕ) (s : W)
      → valid s
      → fits s n ≡ true
      → (s' : W) × (w.advance n s ≡ ret tt s')
        × valid s'
        × (before s' ≡ before s ++ (take n (after s) ++ replicate (n - length (after s)) 0))
        × (after s' ≡ drop n (after s))
        × ((m : ℕ) → fits s' m ≡ fits s (n + m))
  pub extends :
      (xs : List ℕ) (s : W)
      → valid s
      → fits s (length xs) ≡ true
      → (s' : W) × (w.extend xs s ≡ ret tt s')
        × valid s'
        × (before s' ≡ before s ++ xs)
        × (after s' ≡ drop (length xs) (after s))
        × ((m : ℕ) → fits s' m ≡ fits s (length xs + m))
  pub refuses :
      (xs : List ℕ) (s : W)
      → valid s
      → fits s (length xs) ≡ false
      → (w.extend xs s ≡ abort) ⊎ ((e : Full) × (w.extend xs s ≡ fail e s) × (e.written ≡ 0))

-- The contracts, with the states that they are about and what they say that the bytes are.
abbrev pub IsCursorOf : {S V : Type 0} → BufReader S V → (S → Type 0) → (S → List ℕ) → Type 1
IsCursorOf r valid contents = (c : IsCursor r) × (c.valid ≡ valid) × (c.contents ≡ contents)

abbrev pub IsReaderOf :
    {S V : Type 0} → BufReader S V → (S → Type 0) → (S → List ℕ) → (V → List ℕ) → Type 1
IsReaderOf r valid contents bytes =
    (c : IsBufReader r) × (c.valid ≡ valid) × (c.contents ≡ contents) × (c.bytes ≡ bytes)

abbrev pub IsWriterOf :
    {W : Type 0}
    → BufWriter W
    → (W → Type 0)
    → (W → List ℕ)
    → (W → List ℕ)
    → (W → ℕ → Bool)
    → Type 1
IsWriterOf w valid before after fits =
    (c : IsBufWriter w) × (c.valid ≡ valid)
    × (c.before ≡ before)
    × (c.after ≡ after)
    × (c.fits ≡ fits)
