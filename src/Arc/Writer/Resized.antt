-- ===== src/Arc/Writer/Resized.antt =====
-- `fully_initialize` and `set_filled_to` of `ArcBufMut`, of byst/src/buf/arc_buf.rs.
use byst.Prelude.{
  ℕ, zero, suc, ◌+◌, ◌-◌, ◌≤◌, min, ◌≡◌, refl, sym, ap, ap₂, ◌∙◌, subst, Bool, true, false, Option,
  none, some, List, [], ◌∷◌, ◌++◌, arith, leb, if◌then◌else◌, le→leb, length, take, replicate,
  length-replicate, take-take, overlay_at, length-overlay_at, take-overlay_at, take-overlay_at_end,
  between, between-inside, assert,
}
use byst.Buf.Fill.{IsInit, assume_init}
use byst.Arc.Ref.{Memory, uninitialized, initialized_end, in_bounds, fully_initialize}
use byst.Arc.Mutable.{ArcBufMut, capacity, filled, set_filled_to}
use byst.Arc.Writer.Simulate.{IsBacked, IsCounted, uninitialized_lem, length-uninitialized}

-- A buffer at the tail of its memory, of which everything that is counted as initialised is.
pub record IsTail (m : Memory) (b : ArcBufMut) : Type 0 where
  pub backed : IsBacked m b
  pub tail : b.inner.tail ≡ true
  pub covered : b.inner.start + b.filled ≤ m.initialized
  pub bounded : m.initialized ≤ b.inner.end
  pub known : IsInit (take (m.initialized - b.inner.start) (uninitialized m b.inner))

IsInit-append : (xs ys : List (Option ℕ)) → IsInit xs → IsInit ys → IsInit (xs ++ ys)
IsInit-append [] ys i j = j
IsInit-append (none ∷ xs) ys i j = absurd i
IsInit-append (some x ∷ xs) ys i j = IsInit-append xs ys i j

zeros-IsInit : (n : ℕ) → IsInit (replicate n (some 0))
zeros-IsInit zero = tt
zeros-IsInit (suc n) = zeros-IsInit n

assert-eq-if : {A : Type 0} (c : Bool) (a : A) → assert c (some a) ≡ (if c then some a else none)
assert-eq-if true a = refl
assert-eq-if false a = refl

-- what `set_filled_to` does: it accepts what is initialised, and sets the length
pub set_filled_to_lem :
    {m : Memory} {b : ArcBufMut} (n : ℕ)
    → IsTail m b
    → set_filled_to n m b
      ≡ (if leb n (m.initialized - b.inner.start) then some (record b { filled = n }) else none)
unfolding set_filled_to initialized_end in_bounds
set_filled_to_lem {m} {b} n v =
    rw
      (
        v.tail,
        le→leb b.inner.start m.initialized (omega (arith, v.covered)),
        le→leb m.initialized b.inner.end v.bounded,
        le→leb b.inner.start m.initialized (omega (arith, v.covered)),
      )
      (assert-eq-if (leb n (m.initialized - b.inner.start)) _)

pub resized-IsTail :
    {m : Memory} {b : ArcBufMut} (n : ℕ)
    → IsTail m b
    → n ≤ m.initialized - b.inner.start
    → IsTail m (record b { filled = n })
resized-IsTail {m} {b} n v h =
    let s : b.inner.start ≤ m.initialized = omega (arith, v.covered) in
    record {
      backed = record {
        heap = v.backed.heap;
        ordered = v.backed.ordered;
        in_memory = v.backed.in_memory;
        small = v.backed.small;
        counted =
            subst (λ t. IsCounted t m (record b { filled = n })) (sym v.tail)
              (omega (arith, s, h), v.bounded);
      };
      tail = v.tail;
      covered = omega (arith, s, h);
      bounded = v.bounded;
      known = v.known;
    }

module _ (m : Memory) (b : ArcBufMut) (v : IsTail m b) where
  abbrev zeros : List (Option ℕ)
  zeros = replicate (b.inner.end - m.initialized) (some 0)

  abbrev pos : ℕ
  pos = m.initialized - b.inner.start

  -- the memory that `fully_initialize` leaves
  abbrev full : Memory
  full = record m { buf = overlay_at m.initialized zeros m.buf; initialized = b.inner.end }

  fully_initialize-full : fully_initialize m b.inner ≡ some full
  unfolding fully_initialize in_bounds
  fully_initialize-full =
      rw
        (
          v.tail,
          le→leb b.inner.start m.initialized (omega (arith, v.covered)),
          le→leb m.initialized b.inner.end v.bounded,
        )
        refl

  start_pos : b.inner.start + pos ≡ m.initialized
  start_pos = omega (arith, v.covered)

  length-zeros : length zeros ≡ b.inner.end - m.initialized
  length-zeros = length-replicate (b.inner.end - m.initialized) (some 0)

  full-uninitialized : uninitialized full b.inner ≡ overlay_at pos zeros (uninitialized m b.inner)
  full-uninitialized =
      uninitialized_lem full b.inner v.backed.heap
      ∙ ap (λ i. between b.inner.start b.inner.end (overlay_at i zeros m.buf)) (sym start_pos)
      ∙ between-inside b.inner.start b.inner.end pos zeros m.buf
          (omega (arith, start_pos, length-zeros, v.bounded)) v.backed.in_memory
      ∙ ap (overlay_at pos zeros) (sym (uninitialized_lem m b.inner v.backed.heap))

  pos-fits : pos ≤ length (uninitialized m b.inner)
  pos-fits = omega (arith, length-uninitialized v.backed, v.bounded)

  known_full : IsInit (take (b.inner.end - b.inner.start) (uninitialized full b.inner))
  known_full =
      subst IsInit
        (sym (
          ap (take (b.inner.end - b.inner.start)) full-uninitialized
          ∙ ap (λ n. take n (overlay_at pos zeros (uninitialized m b.inner)))
              {x = b.inner.end - b.inner.start} {y = pos + (b.inner.end - m.initialized)}
              (omega (arith, v.covered, v.bounded))
          ∙ take-overlay_at_end pos (b.inner.end - m.initialized) zeros (uninitialized m b.inner)
              pos-fits length-zeros))
        (IsInit-append (take pos (uninitialized m b.inner)) zeros v.known
          (zeros-IsInit (b.inner.end - m.initialized)))

  length-full : length full.buf ≡ length m.buf
  length-full =
      length-overlay_at m.initialized zeros m.buf
        (omega (arith, length-zeros, v.bounded, v.backed.in_memory))

  full-IsTail : IsTail full b
  full-IsTail = record {
    backed = record {
      heap = v.backed.heap;
      ordered = v.backed.ordered;
      in_memory = omega (arith, length-full, v.backed.in_memory);
      small = omega (arith, length-full, v.backed.small);
      counted =
          subst (λ t. IsCounted t full b) (sym v.tail)
            (omega (arith, v.covered, v.bounded), omega arith);
    };
    tail = v.tail;
    covered = omega (arith, v.covered, v.bounded);
    bounded = omega arith;
    known = known_full;
  }

  kept : take pos (uninitialized full b.inner) ≡ take pos (uninitialized m b.inner)
  kept =
      ap (take pos) full-uninitialized
      ∙ take-overlay_at pos zeros (uninitialized m b.inner) pos-fits

  front-kept : take b.filled (uninitialized full b.inner) ≡ take b.filled (uninitialized m b.inner)
  front-kept =
      ap (λ n. take n (uninitialized full b.inner)) {x = b.filled} {y = min b.filled pos}
        (omega (arith, v.covered))
      ∙ sym (take-take b.filled pos (uninitialized full b.inner))
      ∙ ap (take b.filled) kept
      ∙ take-take b.filled pos (uninitialized m b.inner)
      ∙ ap (λ n. take n (uninitialized m b.inner)) {x = min b.filled pos} {y = b.filled}
          (omega (arith, v.covered))

  filled-kept : filled full b ≡ filled m b
  unfolding filled
  filled-kept =
      ap₂ (λ l u. assert (leb b.filled l) (some (assume_init u)))
        (length-uninitialized full-IsTail.backed ∙ sym (length-uninitialized v.backed)) front-kept

  -- On a buffer at the tail of its memory, where all that is counted as initialised is,
  -- `fully_initialize` succeeds and keeps this and what is filled; afterwards `set_filled_to`
  -- takes any length up to the capacity, and keeps this too.
  pub fully_initialize_lem :
      (m' : Memory) × (fully_initialize m b.inner ≡ some m')
      × IsTail m' b
      × (filled m' b ≡ filled m b)
      × ((n : ℕ)
          → n ≤ capacity b
          → (set_filled_to n m' b ≡ some (record b { filled = n }))
            × IsTail m' (record b { filled = n }))
  fully_initialize_lem = (
    full,
    fully_initialize-full,
    full-IsTail,
    filled-kept,
    λ n h. (
      set_filled_to_lem n full-IsTail ∙ rw (le→leb n (b.inner.end - b.inner.start) h) refl,
      resized-IsTail n full-IsTail h,
    ),
  )
