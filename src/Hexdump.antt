-- ===== src/Hexdump.antt =====
-- byst/src/hexdump.rs: the lines of a hexdump, and their text as a list of character codes. A panic
-- is `none`.
pub mod Digits
pub mod Rows
pub mod Text
use byst.Prelude.{
  ℕ, zero, suc, ◌+◌, ◌-◌, ◌*◌, ◌/◌, ◌%◌, max, Bool, true, false, not, ◌&&◌, ◌||◌, Option, none,
  some, List, ◌∷◌, ◌++◌, map, ltb, leb, ◌==◌, if◌then◌else◌, checked_add, checked_sub, length, take,
  replicate, and_then, assert, [],
}
use byst.Io.Interface.{BufReader}
use byst.Io.Slice.{SliceWriter, slice_at, slice_writer}
use byst.Copy.{Copied, copied, panicked, out_of_fuel, copy_io}

-- `struct Config`, and its default
pub record Config : Type 0 where
  pub offset : ℕ
  pub trailing_newline : Bool
  pub at_least_one_line : Bool
  pub header : Bool

abbrev pub default_config : Config
default_config = record {
  offset = 0;
  trailing_newline = true;
  at_least_one_line = true;
  header = true;
}

-- the configuration of `impl Debug for Hexdump`
abbrev pub debug_config : Config → Config
debug_config c = record {
  offset = c.offset;
  trailing_newline = false;
  at_least_one_line = false;
  header = false;
}

-- the loop of `num_hex_digits`; a `usize` has no more than the fuel's digits
unfoldable pub count_digits : ℕ → ℕ → ℕ → Option ℕ
count_digits zero num d = if num == 0 then some d else none
count_digits (suc fuel) num d =
    let rest = count_digits fuel (num / 16) (d + 1) in if num == 0 then some d else rest

-- `num_hex_digits`
unfoldable pub num_hex_digits : ℕ → Option ℕ
unfolding count_digits
num_hex_digits num = if num == 0 then some 1 else count_digits 16 num 0

-- `struct Line`
pub record Line : Type 0 where
  pub line : List ℕ
  pub num_bytes : ℕ
  pub offset : ℕ
  pub pad_offset_to : ℕ

-- `struct Lines`, whose reader is `S`
pub record Lines (S : Type 0) : Type 0 where
  pub reader : S
  pub pad_offset_to : ℕ
  pub offset : ℕ
  pub remaining : ℕ
  pub emit_empty_line : Bool

-- `Lines::new`, for a buffer of a length and its reader
unfoldable pub new : {S : Type 0} → S → ℕ → Config → Option (Lines S)
unfolding num_hex_digits
new reader len config = and_then (checked_add config.offset len) (λ end.
    and_then (num_hex_digits end) (λ digits. some (record {
      reader = reader;
      pad_offset_to = max digits 4;
      offset = config.offset;
      remaining = len;
      emit_empty_line = config.at_least_one_line;
    })))

module _ {S V : Type 0} (r : BufReader S V) where
  -- the line that was copied, and what is left
  copied_line : Lines S → Copied SliceWriter S → Option (Option Line × Lines S)
  copied_line l (copied n d s) = and_then (checked_add l.offset n) (λ offset.
      and_then (checked_sub l.remaining n) (λ remaining. some (
        some (record {
          line = d.written ++ d.left;
          num_bytes = n;
          offset = l.offset;
          pad_offset_to = l.pad_offset_to;
        }),
        record {
          reader = s;
          pad_offset_to = l.pad_offset_to;
          offset = offset;
          remaining = remaining;
          emit_empty_line = false;
        },
      )))
  copied_line l panicked = none
  copied_line l out_of_fuel = none

  -- `Iterator::next`; the array of zeros is filled through its writer
  unfoldable pub next : Lines S → Option (Option Line × Lines S)
  unfolding copied_line
  next l =
      if ltb 0 l.remaining || l.emit_empty_line
      then copied_line l (copy_io slice_writer r (slice_at [] (replicate 16 0)) l.reader (some 16))
      else some (none, l)

  -- the lines that a loop over the iterator sees, if it ends within the fuel
  abbrev then_lines :
      (Lines S → Option (List Line)) → Option (Option Line × Lines S) → Option (List Line)
  then_lines f none = none
  then_lines f (some (none, l)) = some []
  then_lines f (some (some x, l)) = and_then (f l) (λ xs. some (x ∷ xs))

  unfoldable pub all_lines : ℕ → Lines S → Option (List Line)
  unfolding next
  all_lines zero l = none
  all_lines (suc fuel) l = then_lines (all_lines fuel) (next l)

-- The formatting of the standard library: a digit, `{:x}`, `{}` and `{:02x}`.
abbrev pub digit : ℕ → ℕ
digit n = if ltb n 10 then 48 + n else 87 + n

-- the digits of a number that is not 0, put before `acc`
unfoldable pub digits : ℕ → ℕ → ℕ → List ℕ → List ℕ
digits base zero n acc = acc
digits base (suc fuel) n acc =
    let rest = digits base fuel (n / base) (digit (n % base) ∷ acc) in if n == 0 then acc else rest

unfoldable pub lower_hex : ℕ → List ℕ
unfolding digits
lower_hex n = if n == 0 then 48 ∷ [] else digits 16 16 n []

unfoldable pub decimal : ℕ → List ℕ
unfolding digits
decimal n = if n == 0 then 48 ∷ [] else digits 10 20 n []

abbrev pub hex_byte : ℕ → List ℕ
hex_byte b = 32 ∷ digit (b / 16) ∷ digit (b % 16) ∷ []

abbrev pub hex_bytes : List ℕ → List ℕ
hex_bytes [] = []
hex_bytes (b ∷ bs) = hex_byte b ++ hex_bytes bs

-- `is_ascii`, and not `is_ascii_control`
abbrev pub shown : ℕ → ℕ
shown b = if ltb b 128 && not (ltb b 32 || (b == 127)) then b else 46

-- `impl Display for Line`; the line is an array of 16 bytes, which is not empty
unfoldable pub display_line : Line → Option (List ℕ)
unfolding num_hex_digits lower_hex
display_line l = and_then (num_hex_digits l.offset) (λ digits.
    and_then (checked_sub l.pad_offset_to digits) (λ zeros.
      let bytes = take l.num_bytes l.line in
      assert (leb l.num_bytes (length l.line)) (
        some (
          replicate zeros 48
          ++ (lower_hex l.offset ++ (32 ∷ []))
          ++ (hex_bytes bytes ++ replicate (3 * (16 - l.num_bytes)) 32 ++ (32 ∷ 32 ∷ []))
          ++ map shown bytes))))

-- each further line behind a newline
unfoldable pub display_more : List Line → Option (List ℕ)
display_more [] = some []
display_more (l ∷ ls) =
    and_then (display_line l) (λ t. and_then (display_more ls) (λ ts. some (10 ∷ (t ++ ts))))

abbrev pub display_lines : List Line → Option (List ℕ)
display_lines [] = some []
display_lines (l ∷ ls) =
    and_then (display_line l) (λ t. and_then (display_more ls) (λ ts. some (t ++ ts)))

-- "Hexdump: " and " bytes"
abbrev pub header_text : ℕ → List ℕ
header_text len =
    72
    ∷ 101
    ∷ 120
    ∷ 100
    ∷ 117
    ∷ 109
    ∷ 112
    ∷ 58
    ∷ 32
    ∷ (decimal len ++ (32 ∷ 98 ∷ 121 ∷ 116 ∷ 101 ∷ 115 ∷ 10 ∷ []))

-- `impl Display for Hexdump`, for a formatter that takes everything
unfoldable pub display : {S V : Type 0} → BufReader S V → S → ℕ → Config → Option (List ℕ)
unfolding new all_lines display_line display_more decimal
display r reader len config = and_then (new reader len config) (λ l.
    and_then (all_lines r (len + 2) l) (λ ls. and_then (display_lines ls) (λ text. some (
      (if config.header then header_text len else [])
      ++ text
      ++ (if config.trailing_newline then 10 ∷ [] else [])))))
