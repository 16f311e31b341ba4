-- ===== src/Io/Values/Codec.antt =====
-- What is written is read again: the values that are codecs, and tuples of them.
use native.Mathlib.Nat.{pow-succ', mod-eq_of_lt}
use byst.Prelude.{
  ℕ, zero, suc, ◌+◌, ◌-◌, ◌/◌, ◌%◌, ◌^◌, ◌<◌, ◌≡◌, refl, sym, ap, ◌∙◌, subst, true, List, [], ◌∷◌,
  ◌++◌, append_assoc, arith, lt→ltb, le→ltb, length, take, drop, length-append, take-append,
  drop-append, Outcome, ret,
}
use byst.Io.Interface.{End, Full, BufReader, BufWriter}
use byst.Io.Laws.{IsCursor, IsBufWriter}
use byst.Io.Slice.{slice_reader, slice_cursor}
use byst.Io.Derived.{write_buf, read_byte_array, write_buf_lem, read_byte_array_lem}
use byst.Endian
use byst.Endian.{Endianness, encode, decode, decoded}
use byst.Endian.Round.{bound, length-encode, decode-encode}
use byst.Io.Values.{
  ℤ, pos, negsuc, as_signed, as_unsigned, read_as, then_read, then_write, only, read_array, read_u8,
  read_i8, read_signed, read_tuple, write_array, write_u8, write_i8, write_signed, write_tuple,
}

-- The integers that a signed type of an even modulus has.
abbrev pub IsSigned : ℕ → ℤ → Type 0
IsSigned m (pos n) = n < m / 2
IsSigned m (negsuc n) = n < m / 2

as_signed-as_unsigned :
    (m : ℕ) (z : ℤ) → m % 2 ≡ 0 → IsSigned m z → as_signed m (as_unsigned m z) ≡ z
unfolding as_signed as_unsigned
as_signed-as_unsigned m (pos n) e h =
    let k : n % m ≡ n = mod-eq_of_lt (omega arith) in rw (k, lt→ltb n (m / 2) h) refl
as_signed-as_unsigned m (negsuc n) e h =
    let k : n % m ≡ n = mod-eq_of_lt (omega arith) in
    rw (k, le→ltb (m - 1 - n) (m / 2) (omega arith)) (ap negsuc (omega arith))

as_unsigned-lt : (m : ℕ) (z : ℤ) → 0 < m → IsSigned m z → as_unsigned m z < m
unfolding as_unsigned
as_unsigned-lt m (pos n) p h = omega (arith, mod-eq_of_lt {n = n} {m = m} (omega arith))
as_unsigned-lt m (negsuc n) p h = omega arith

bound-pow : (n : ℕ) → bound n ≡ 256 ^ n
bound-pow zero = refl
bound-pow (suc n) = omega (arith, bound-pow n, pow-succ' 256 n)

positive : (n : ℕ) → 0 < 256 ^ n
positive zero = omega arith
positive (suc n) = omega (arith, positive n, pow-succ' 256 n)

even : (n : ℕ) → 0 < n → 256 ^ n % 2 ≡ 0
even zero h = absurd (omega arith)
even (suc n) h = omega (arith, pow-succ' 256 n)

module _ {W S V : Type 0} {w : BufWriter W} {r : BufReader S V} (lw : IsBufWriter w)
    (lr : IsCursor r) where
  open lw use {before, fits}
  open lr use {contents}

  -- A value for which `Fits` holds is written as its bytes where they fit, and read from the front
  -- of a reader that has them.
  pub record IsCodec {A : Type 0} (write : A → W → Outcome W Full (Unit {0}))
      (read : S → Outcome S End A) (Fits : A → Type 0) : Type 0 where
    pub encoded : A → List ℕ
    pub writes :
        (a : A) (d : W)
        → Fits a
        → lw.valid d
        → fits d (length (encoded a)) ≡ true
        → (d' : W) × (write a d ≡ ret tt d')
          × lw.valid d'
          × (before d' ≡ before d ++ encoded a)
          × ((m : ℕ) → fits d' m ≡ fits d (length (encoded a) + m))
    pub reads :
        (a : A) (s : S) (rest : List ℕ)
        → Fits a
        → lr.valid s
        → contents s ≡ encoded a ++ rest
        → (s' : S) × (read s ≡ ret a s') × lr.valid s' × (contents s' ≡ rest)

  reads_array :
      (xs : List ℕ) (s : S) (rest : List ℕ)
      → lr.valid s
      → contents s ≡ xs ++ rest
      → (s' : S) × (read_byte_array r (length xs) s ≡ ret xs s')
        × lr.valid s'
        × (contents s' ≡ rest)
  reads_array xs s rest v e =
      let (s', p, u, c) =
        read_byte_array_lem lr (length xs) s v
          (omega (arith, ap length e, length-append xs rest)) in
      (
        s',
        p ∙ ap (λ ys. ret ys s') (ap (take (length xs)) e ∙ take-append xs rest),
        u,
        c ∙ ap (drop (length xs)) e ∙ drop-append xs rest,
      )

  writes_array :
      (xs : List ℕ) (d : W)
      → lw.valid d
      → fits d (length xs) ≡ true
      → (d' : W) × (write_buf w slice_reader d xs ≡ ret tt d')
        × lw.valid d'
        × (before d' ≡ before d ++ xs)
        × ((m : ℕ) → fits d' m ≡ fits d (length xs + m))
  unfolding slice_cursor
  writes_array xs d v f = write_buf_lem lw slice_cursor d xs v tt f

  pub array-IsCodec : (n : ℕ) → IsCodec (write_array w) (read_array r n) (λ xs. length xs ≡ n)
  unfolding write_array read_array
  array-IsCodec n = record {
    encoded = λ xs. xs;
    writes = λ xs d h v f. writes_array xs d v f;
    reads = λ xs s rest h v e.
        subst
          (λ k. (s' : S) × (read_byte_array r k s ≡ ret xs s') × lr.valid s' × (contents s' ≡ rest))
          h (reads_array xs s rest v e);
  }

  pub u8-IsCodec : IsCodec (write_u8 w) (read_u8 r) (λ b. b < 256)
  unfolding write_u8 read_u8
  u8-IsCodec = record {
    encoded = λ b. b ∷ [];
    writes = λ b d h v f. writes_array (b ∷ []) d v f;
    reads = λ b s rest h v e.
        let (s', p, u, c) = reads_array (b ∷ []) s rest v e in (s', ap (read_as only) p, u, c);
  }

  -- A codec between values that are cast.
  cast-IsCodec :
      {A B : Type 0} {write : A → W → Outcome W Full (Unit {0})} {read : S → Outcome S End A}
      {Fits : A → Type 0} (Fits' : B → Type 0) (f : A → B) (g : B → A)
      → IsCodec write read Fits
      → ((b : B) → Fits' b → Fits (g b) × (f (g b) ≡ b))
      → IsCodec (λ b d. write (g b) d) (λ s. read_as f (read s)) Fits'
  cast-IsCodec Fits' f g c k = record {
    encoded = λ b. c.encoded (g b);
    writes = λ b d h v o. c.writes (g b) d (k b h).0 v o;
    reads = λ b s rest h v e.
        let (s', p, u, q) = c.reads (g b) s rest (k b h).0 v e in
        (s', ap (read_as f) p ∙ ap (λ x. ret x s') (k b h).1, u, q);
  }

  pub i8-IsCodec : IsCodec (write_i8 w) (read_i8 r) (IsSigned 256)
  unfolding write_i8 read_i8
  i8-IsCodec =
      cast-IsCodec (IsSigned 256) (as_signed 256) (as_unsigned 256) u8-IsCodec
        (λ b h. (as_unsigned-lt 256 b (omega arith) h, as_signed-as_unsigned 256 b refl h))

  unsigned-IsCodec :
      (e : Endianness) (n : ℕ) → IsCodec (Endian.write w e n) (Endian.read r e n) (λ v. v < bound n)
  unfolding Endian.write Endian.read
  unsigned-IsCodec e n = record {
    encoded = encode e n;
    writes = λ v d h u f. writes_array (encode e n v) d u f;
    reads = λ v s rest h u k.
        let (s', p, u', q) = reads_array (encode e n v) s rest u k in
        (
          s',
          ap (λ m. decoded e (read_byte_array r m s)) (sym (length-encode e n v))
              ∙ ap (decoded e) p
              ∙ ap (λ x. ret x s') (decode-encode e n v h),
          u',
          q,
        );
  }

  -- A signed integer of `n` bytes, not 0, in either byte order, that is in the range of two's
  -- complement, is written whole where its bytes fit, and read back where they come first, for a
  -- writer and a reader that keep their contracts.
  pub IsSigned-IsCodec :
      (e : Endianness) (n : ℕ)
      → 0 < n
      → IsCodec (write_signed w e n) (read_signed r e n) (IsSigned (256 ^ n))
  unfolding write_signed read_signed
  IsSigned-IsCodec e n h =
      cast-IsCodec (IsSigned (256 ^ n)) (as_signed (256 ^ n)) (as_unsigned (256 ^ n))
        (unsigned-IsCodec e n)
        (λ z k. (
          omega (arith, bound-pow n, as_unsigned-lt (256 ^ n) z (positive n) k),
          as_signed-as_unsigned (256 ^ n) z (even n h) k,
        ))

  -- The codec of a pair, from those of its components.
  pub tuple-IsCodec :
      {A B : Type 0} {write_a : A → W → Outcome W Full (Unit {0})} {read_a : S → Outcome S End A}
      {Fits_a : A → Type 0} {write_b : B → W → Outcome W Full (Unit {0})}
      {read_b : S → Outcome S End B} {Fits_b : B → Type 0}
      → IsCodec write_a read_a Fits_a
      → IsCodec write_b read_b Fits_b
      → IsCodec
          (write_tuple write_a write_b)
          (read_tuple read_a read_b)
          (λ (a, b). Fits_a a × Fits_b b)
  unfolding write_tuple read_tuple
  tuple-IsCodec {write_b = write_b} {read_b = read_b} c d = record {
    encoded = λ (a, b). c.encoded a ++ d.encoded b;
    writes = λ (a, b) o (h, k) v f.
        let n = length (c.encoded a) in
        let m = length (d.encoded b) in
        let l : length (c.encoded a ++ d.encoded b) ≡ n + m =
          length-append (c.encoded a) (d.encoded b) in
        let g : fits o (n + m) ≡ true = ap (fits o) (sym l) ∙ f in
        let (o1, p, v1, b1, r1) = c.writes a o h v (lw.shrinks n (n + m) o (omega arith) g) in
        let (o2, q, v2, b2, r2) = d.writes b o1 k v1 (r1 m ∙ g) in
        (
          o2,
          ap (λ x. then_write x (λ d. write_b b d)) p ∙ q,
          v2,
          b2 ∙ ap (◌++ d.encoded b) b1 ∙ append_assoc (before o) (c.encoded a) (d.encoded b),
          λ j.
              r2 j
              ∙ r1 (m + j)
              ∙ ap (fits o) {y = length (c.encoded a ++ d.encoded b) + j} (omega (arith, l)),
        );
    reads = λ (a, b) s rest (h, k) v e.
        let (s1, p, v1, c1) =
          c.reads a s (d.encoded b ++ rest) h v
            (e ∙ append_assoc (c.encoded a) (d.encoded b) rest) in
        let (s2, q, v2, c2) = d.reads b s1 rest k v1 c1 in
        (
          s2,
          ap (λ x. then_read x (λ a s. read_as (λ b. (a, b)) (read_b s))) p
              ∙ ap (read_as (λ b. (a, b))) q,
          v2,
          c2,
        );
  }
