-- ===== src/Io/Derived.antt =====
-- The `Reader` and `Writer` that `impl_me!` of byst/src/util.rs derives from a `BufReader` and a
-- `BufWriter`, and `read_byte_array` of byst/src/io/read.rs.
use byst.Prelude.{
  ℕ, ◌+◌, ◌-◌, ◌≤◌, ◌≡◌, refl, ap, ◌∙◌, true, none, some, List, [], ◌++◌, append-nil, arith, ltb,
  leb, ◌==◌, if◌then◌else◌, le→ltb, le→leb, eq→==, length, take, drop, replicate, length-replicate,
  drop_all, take_all, Outcome, ret, fail, abort,
}
use byst.Io.Interface.{End, Full, BufReader, BufWriter}
use byst.Io.Laws.{IsCursor, IsBufWriter}
use byst.Io.Slice.{SliceWriter, slice_at, slice_writer, slice_writer_contract}
use byst.Copy.{Copied, copied, panicked, out_of_fuel, copy_io}
use byst.Copy.All.{copy_io-all}
use byst.Copy.Amount.{copy_io-amount}

module _ {W S V : Type 0} (w : BufWriter W) (r : BufReader S V) where
  write_total : ℕ → Copied W S → Outcome W Full (Unit {0})
  write_total len (copied n d s) =
      if ltb n len
      then fail (record { written = n; requested = len; remaining = len - n }) d
      else ret tt d
  write_total len panicked = abort
  write_total len out_of_fuel = abort

  -- `Writer::write_buf`, for a buffer with the reader's bytes
  unfoldable pub write_buf : W → S → Outcome W Full (Unit {0})
  unfolding write_total
  write_buf d s = write_total (r.remaining s) (copy_io w r d s none)

module _ {S V : Type 0} (r : BufReader S V) where
  -- the array that the writer leaves; the assertion is on the count
  array_total : ℕ → Copied SliceWriter S → Outcome S End (List ℕ)
  array_total len (copied n d s) =
      if leb n len
      then if n == len
        then ret (d.written ++ d.left) s
        else fail (record { read = n; requested = len; remaining = 0 }) s
      else abort
  array_total len panicked = abort
  array_total len out_of_fuel = abort

  -- `read_byte_array`, with `Reader::read_into_exact` of the array of zeros
  unfoldable pub read_byte_array : ℕ → S → Outcome S End (List ℕ)
  unfolding array_total
  read_byte_array len s =
      array_total len (copy_io slice_writer r (slice_at [] (replicate len 0)) s (some len))

module _ {W S V : Type 0} {w : BufWriter W} {r : BufReader S V} (lw : IsBufWriter w)
    (lr : IsCursor r) where
  open lw use {before, fits}
  open lr use {contents}

  -- A buffer that fits is written whole.
  pub write_buf_lem :
      (d : W) (s : S)
      → lw.valid d
      → lr.valid s
      → fits d (length (contents s)) ≡ true
      → (d' : W) × (write_buf w r d s ≡ ret tt d')
        × lw.valid d'
        × (before d' ≡ before d ++ contents s)
        × ((m : ℕ) → fits d' m ≡ fits d (length (contents s) + m))
  unfolding write_buf
  write_buf_lem d s v u f =
      let c = copy_io-all lw lr none d s v u tt f in
      (
        c.d',
        ap (write_total w r (r.remaining s)) c.ends
            ∙ rw (lr.remains s u, le→ltb (length (contents s)) (length (contents s)) (omega arith))
                refl,
        c.sound,
        c.written ∙ ap (before d ++◌) (take_all (length (contents s)) (contents s) (omega arith)),
        c.room,
      )

module _ {S V : Type 0} {r : BufReader S V} (lr : IsCursor r) where
  open lr use {contents}

  -- An array is filled with the reader's first bytes, if there are as many.
  pub read_byte_array_lem :
      (n : ℕ) (s : S)
      → lr.valid s
      → n ≤ length (contents s)
      → (s' : S) × (read_byte_array r n s ≡ ret (take n (contents s)) s')
        × lr.valid s'
        × (contents s' ≡ drop n (contents s))
  unfolding read_byte_array slice_writer_contract
  read_byte_array_lem n s u h =
      let zeros : List ℕ = replicate n 0 in
      let z : length zeros ≡ n = length-replicate {A = ℕ} n 0 in
      let c =
        copy_io-amount slice_writer_contract lr n (slice_at [] zeros) s tt u (omega (arith, z)) h in
      (
        c.s',
        ap (array_total r n) c.ends
            ∙ rw
                (
                  le→leb n n (omega arith),
                  eq→== n n refl,
                  c.written,
                  c.ahead,
                  drop_all n zeros (omega (arith, z)),
                )
                (ap (λ xs. ret xs c.s') (append-nil (take n (contents s)))),
        c.sane,
        c.read,
      )
