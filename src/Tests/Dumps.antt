-- ===== src/Tests/Dumps.antt =====
-- A hexdump of byst/src/hexdump.rs.
use byst.Prelude.{ℕ, ◌≡◌, refl, some, List, [], ◌∷◌, ◌++◌, arith, if◌then◌else◌, length, replicate}
use byst.Io.Slice.{slice_reader, slice_cursor}
use byst.Hexdump.{
  Line, default_config, num_hex_digits, display_line, display_lines, header_text, display,
}
use byst.Hexdump.Rows.{IsLine, lines_bytes}
use byst.Hexdump.Text.{display_line_lem, display_lem}

-- a line of "AB" at offset 16
abbrev line : Line
line = record { line = 65 ∷ 66 ∷ replicate 14 0; num_bytes = 2; offset = 16; pad_offset_to = 4 }

line-IsLine : IsLine line
unfolding num_hex_digits
line-IsLine = record {
  full = refl;
  within = omega arith;
  offset_digits = 2;
  has_digits = refl;
  padded = omega arith;
  small = omega arith;
}

display_line_lem_example : (t : List ℕ) × (display_line line ≡ some t) × (length t ≡ 57)
display_line_lem_example = display_line_lem line line-IsLine

abbrev three : List ℕ
three = 65 ∷ 66 ∷ 67 ∷ []

display_lem_example :
    (ls : List Line) × (t : List ℕ) × (lines_bytes ls ≡ three)
    × (display_lines ls ≡ some t)
    × (display slice_reader three 3 default_config
        ≡ some (
            (if default_config.header then header_text 3 else [])
            ++ t
            ++ (if default_config.trailing_newline then 10 ∷ [] else [])))
unfolding slice_cursor
display_lem_example = display_lem slice_cursor three default_config tt (omega arith)
