-- ===== src/Hexdump/Rows.antt =====
-- The lines of a hexdump of byst/src/hexdump.rs, and the bytes that they hold.
use byst.Prelude.{
  ℕ, ◌+◌, ◌-◌, ◌≤◌, ◌<◌, min, ◌≡◌, refl, ap, ◌∙◌, true, false, ◌||◌, Option, some, List, [], ◌∷◌,
  ◌++◌, arith, ltb, lt→ltb, le→leb, usize_mod, length, take, drop, replicate, length-append,
  length-take, length-drop, take-front,
}
use byst.Io.Interface.{BufReader}
use byst.Io.Laws.{IsCursor}
use byst.Io.Slice.{slice_at, slice_writer, slice_writer_contract}
use byst.Io.Reads.{cut_short, drop_short}
use byst.Copy.{copy_io}
use byst.Copy.All.{Copies}
use byst.Copy.Amount.{copy_io-up_to}
use byst.Hexdump.{Line, Lines, num_hex_digits, copied_line, next}
use byst.Hexdump.Digits.{num_hex_digits_mono, same_count}

-- A line that can be printed: its offset has no more digits than it is padded to.
pub record IsLine (x : Line) : Type 0 where
  pub full : length x.line ≡ 16
  pub within : x.num_bytes ≤ 16
  pub offset_digits : ℕ
  pub has_digits : num_hex_digits x.offset ≡ some offset_digits
  pub padded : offset_digits ≤ x.pad_offset_to
  pub small : x.offset < usize_mod

-- the bytes that a line shows, and those that lines show
abbrev pub line_bytes : Line → List ℕ
line_bytes x = take x.num_bytes x.line

abbrev pub lines_bytes : List Line → List ℕ
lines_bytes [] = []
lines_bytes (x ∷ xs) = line_bytes x ++ lines_bytes xs

abbrev pub AreLines : List Line → Type 0
AreLines [] = Unit
AreLines (x ∷ xs) = IsLine x × AreLines xs

module _ {S V : Type 0} {r : BufReader S V} (lr : IsCursor r) where
  open lr use {contents}

  -- What is left is what the reader has, and the padding is for the last offset.
  pub record IsLines (l : Lines S) : Type 0 where
    pub valid : lr.valid l.reader
    pub left : l.remaining ≡ length (contents l.reader)
    pub small : l.offset + l.remaining < usize_mod
    pub last_digits : ℕ
    pub has_digits : num_hex_digits (l.offset + l.remaining) ≡ some last_digits
    pub padded : last_digits ≤ l.pad_offset_to

  -- a line, and what is left behind it
  pub record Yields (l : Lines S) (o : Option (Option Line × Lines S)) : Type 0 where
    pub line : Line
    pub rest : Lines S
    pub yields : o ≡ some (some line, rest)
    pub is_line : IsLine line
    pub are_lines : IsLines rest
    pub shows : line_bytes line ≡ take 16 (contents l.reader)
    pub skips : contents rest.reader ≡ drop 16 (contents l.reader)
    pub count : line.num_bytes ≡ min 16 (length (contents l.reader))
    pub at_offset : line.offset ≡ l.offset
    pub no_empty : rest.emit_empty_line ≡ false

  -- the array of zeros that the reader fills
  abbrev zeros : List ℕ
  zeros = replicate 16 0

  module _ (l : Lines S) (v : IsLines l)
      (c : Copies slice_writer_contract lr
        (min 16 (length (contents l.reader)))
        (min 16 (length (contents l.reader)))
        (slice_at [] zeros)
        l.reader
        (copy_io slice_writer r (slice_at [] zeros) l.reader (some 16))) where
    abbrev taken : ℕ
    taken = min 16 (length (contents l.reader))

    abbrev row : Line
    row = record {
      line = (c.d').written ++ (c.d').left;
      num_bytes = taken;
      offset = l.offset;
      pad_offset_to = l.pad_offset_to;
    }

    abbrev remainder : Lines S
    remainder = record {
      reader = c.s';
      pad_offset_to = l.pad_offset_to;
      offset = l.offset + taken;
      remaining = l.remaining - taken;
      emit_empty_line = false;
    }

    written_lem : (c.d').written ≡ take taken (contents l.reader)
    unfolding slice_writer_contract
    written_lem = c.written

    left_lem : (c.d').left ≡ drop taken zeros
    unfolding slice_writer_contract
    left_lem = c.ahead

    length-written : length (c.d').written ≡ taken
    length-written = omega (arith, ap length written_lem, length-take taken (contents l.reader))

    row-full : length row.line ≡ 16
    row-full = omega (
      arith,
      length-append (c.d').written (c.d').left,
      length-written,
      ap length left_lem,
      length-drop taken zeros,
    )

    row-IsLine : IsLine row
    row-IsLine =
        let (d, e, p, q, x) =
          num_hex_digits_mono l.offset (l.offset + l.remaining) (omega arith) v.small in
        record {
          full = row-full;
          within = omega arith;
          offset_digits = d;
          has_digits = p;
          padded = omega (arith, same_count q v.has_digits, v.padded);
          small = omega (arith, v.small);
        }

    total : l.offset + taken + (l.remaining - taken) ≡ l.offset + l.remaining
    total = omega (arith, v.left)

    remainder-IsLines : IsLines remainder
    remainder-IsLines = record {
      valid = c.sane;
      left = omega (arith, v.left, ap length c.read, length-drop taken (contents l.reader));
      small = omega (arith, total, v.small);
      last_digits = v.last_digits;
      has_digits = ap num_hex_digits total ∙ v.has_digits;
      padded = v.padded;
    }

    row-shows : line_bytes row ≡ take 16 (contents l.reader)
    row-shows =
        take-front taken (c.d').written (c.d').left length-written
        ∙ written_lem
        ∙ cut_short 16 (contents l.reader)

    row-yields :
        (ltb 0 l.remaining || l.emit_empty_line) ≡ true → next r l ≡ some (some row, remainder)
    unfolding next copied_line
    row-yields h =
        rw
          (
            h,
            c.ends,
            lt→ltb (l.offset + taken) usize_mod (omega (arith, v.small, v.left)),
            le→leb taken l.remaining (omega (arith, v.left)),
          )
          refl

  pub next-line :
      (l : Lines S)
      → IsLines l
      → (ltb 0 l.remaining || l.emit_empty_line) ≡ true
      → Yields l (next r l)
  unfolding slice_writer_contract
  next-line l v h =
      let c =
        copy_io-up_to slice_writer_contract lr 16 (slice_at [] zeros) l.reader tt v.valid
          (omega arith) in
      record {
        line = row l v c;
        rest = remainder l v c;
        yields = row-yields l v c h;
        is_line = row-IsLine l v c;
        are_lines = remainder-IsLines l v c;
        shows = row-shows l v c;
        skips = c.read ∙ drop_short 16 (contents l.reader);
        count = refl;
        at_offset = refl;
        no_empty = refl;
      }
