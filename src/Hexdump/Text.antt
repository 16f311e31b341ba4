-- ===== src/Hexdump/Text.antt =====
-- The text of a hexdump of byst/src/hexdump.rs.
use byst.Prelude.{
  ℕ, zero, suc, ◌+◌, ◌-◌, ◌*◌, ◌<◌, max, ◌≡◌, refl, sym, ap, ap₂, ◌∙◌, inl, inr, Bool, true, false,
  ◌||◌, none, some, List, [], ◌∷◌, ◌++◌, map, arith, ltb, if◌then◌else◌, ltb→lt, lt→ltb, le→leb,
  Bool-cases, le-or-lt, usize_mod, length, take, drop, replicate, length-append, take-append-drop,
  length-take, length-drop, length-replicate, eq-nil_of_length,
}
use byst.Io.Interface.{BufReader}
use byst.Io.Laws.{IsCursor}
use byst.Hexdump.{
  Config, Line, Lines, new, next, all_lines, lower_hex, hex_bytes, shown, display_line,
  display_more, display_lines, display, header_text,
}
use byst.Hexdump.Digits.{num_hex_digits-bounds, same_count}
use byst.Hexdump.Rows.{IsLine, lines_bytes, AreLines, IsLines, next-line}

length-hex_bytes : (bs : List ℕ) → length (hex_bytes bs) ≡ 3 * length bs
length-hex_bytes [] = refl
length-hex_bytes (b ∷ bs) = omega (arith, length-hex_bytes bs)

length-shown : (bs : List ℕ) → length (map shown bs) ≡ length bs
length-shown [] = refl
length-shown (b ∷ bs) = ap suc (length-shown bs)

-- The text of a line of 16 bytes, of which at most 16 are shown and whose offset is a `usize`
-- with no more digits than the padding, takes the padding, 51 columns and one for each byte
-- shown.
pub display_line_lem :
    (x : Line)
    → IsLine x
    → (t : List ℕ) × (display_line x ≡ some t) × (length t ≡ x.pad_offset_to + 51 + x.num_bytes)
unfolding display_line
display_line_lem x v =
    let d = v.offset_digits in
    let bs = take x.num_bytes x.line in
    let hex = lower_hex x.offset in
    let zeros : List ℕ = replicate (x.pad_offset_to - d) 48 in
    let spaces : List ℕ = replicate (3 * (16 - x.num_bytes)) 32 in
    let (e, p, _, _, l) = num_hex_digits-bounds x.offset v.small in
    (
      zeros ++ (hex ++ (32 ∷ [])) ++ (hex_bytes bs ++ spaces ++ (32 ∷ 32 ∷ [])) ++ map shown bs,
      rw
          (
            v.has_digits,
            le→leb d x.pad_offset_to v.padded,
            le→leb x.num_bytes (length x.line) (omega (arith, v.full, v.within)),
          )
          refl,
      omega (
        arith,
        length-append (zeros ++ (hex ++ (32 ∷ [])) ++ (hex_bytes bs ++ spaces ++ (32 ∷ 32 ∷ [])))
            (map shown bs),
        length-append (zeros ++ (hex ++ (32 ∷ []))) (hex_bytes bs ++ spaces ++ (32 ∷ 32 ∷ [])),
        length-append zeros (hex ++ (32 ∷ [])),
        length-append hex (32 ∷ []),
        length-append (hex_bytes bs ++ spaces) (32 ∷ 32 ∷ []),
        length-append (hex_bytes bs) spaces,
        length-replicate {A = ℕ} (x.pad_offset_to - d) 48,
        length-replicate {A = ℕ} (3 * (16 - x.num_bytes)) 32,
        length-hex_bytes bs,
        length-shown bs,
        length-take x.num_bytes x.line,
        l,
        same_count p v.has_digits,
        v.full,
        v.within,
        v.padded,
      ),
    )

module _ {S V : Type 0} {r : BufReader S V} (lr : IsCursor r) where
  open lr use {contents}

  abbrev pending : Lines S → ℕ
  pending l = length (contents l.reader) + (if l.emit_empty_line then 1 else 0)

  next-end :
      (l : Lines S) → (ltb 0 l.remaining || l.emit_empty_line) ≡ false → next r l ≡ some (none, l)
  unfolding next
  next-end l h = rw h refl

  pending-falls :
      (l : Lines S)
      → IsLines lr l
      → (ltb 0 l.remaining || l.emit_empty_line) ≡ true
      → length (drop 16 (contents l.reader)) < pending l
  pending-falls l v h = elim (Bool-cases l.emit_empty_line) [
    | inl e ↦ rw e (omega (arith, length-drop 16 (contents l.reader)))
    | inr e ↦
        let k : 0 < l.remaining = ltb→lt 0 l.remaining (only_left (ltb 0 l.remaining) e h) in
        rw e (omega (arith, length-drop 16 (contents l.reader), v.left))
  ]
    where
      only_left : {b : Bool} (a : Bool) → b ≡ false → (a || b) ≡ true → a ≡ true
      only_left true e h = refl
      only_left false e h = sym e ∙ h

  none_left :
      (l : Lines S)
      → IsLines lr l
      → (ltb 0 l.remaining || l.emit_empty_line) ≡ false
      → contents l.reader ≡ []
  none_left l v h = elim (le-or-lt l.remaining 0) [
    | inl k ↦ eq-nil_of_length (contents l.reader) (omega (arith, v.left))
    | inr k ↦
        absurd (false-true (ap (λ b. b || l.emit_empty_line) (sym (lt→ltb 0 l.remaining k)) ∙ h))
  ]
    where
      false-true : true ≡ false → ⊥
      false-true h = cc

  pub all_lines_lem :
      (fuel : ℕ) (l : Lines S)
      → IsLines lr l
      → pending l < fuel
      → (ls : List Line) × (all_lines r fuel l ≡ some ls)
        × AreLines ls
        × (lines_bytes ls ≡ contents l.reader)
  unfolding all_lines
  all_lines_lem zero l v h = absurd (omega arith)
  all_lines_lem (suc fuel) l v h = elim (Bool-cases (ltb 0 l.remaining || l.emit_empty_line)) [
    | inr e ↦ ([], rw (next-end l e) refl, tt, sym (none_left l v e))
    | inl e ↦
        let y = next-line lr l v e in
        let z : pending y.rest ≡ length (drop 16 (contents l.reader)) =
          rw y.no_empty (omega (arith, ap length y.skips)) in
        let (ls, p, a, q) =
          all_lines_lem fuel y.rest y.are_lines (omega (arith, z, pending-falls l v e)) in
        (
          y.line ∷ ls,
          rw (y.yields, p) refl,
          (y.is_line, a),
          ap₂ ◌++◌ y.shows (q ∙ y.skips) ∙ take-append-drop 16 (contents l.reader),
        )
  ]

display_more_lem : (ls : List Line) → AreLines ls → (t : List ℕ) × (display_more ls ≡ some t)
unfolding display_more
display_more_lem [] a = ([], refl)
display_more_lem (x ∷ xs) (v, a) =
    let (t, p, _) = display_line_lem x v in
    let (ts, q) = display_more_lem xs a in (10 ∷ (t ++ ts), rw (p, q) refl)

display_lines_lem : (ls : List Line) → AreLines ls → (t : List ℕ) × (display_lines ls ≡ some t)
display_lines_lem [] a = ([], refl)
display_lines_lem (x ∷ xs) (v, a) =
    let (t, p, _) = display_line_lem x v in
    let (ts, q) = display_more_lem xs a in (t ++ ts, rw (p, q) refl)

module _ {S V : Type 0} {r : BufReader S V} (lr : IsCursor r) where
  open lr use {contents}

  at_most_two : (b : Bool) (n : ℕ) → n + (if b then 1 else 0) < n + 2
  at_most_two true n = omega arith
  at_most_two false n = omega arith

  new-IsLines :
      (s : S) (config : Config)
      → lr.valid s
      → config.offset + length (contents s) < usize_mod
      → (l : Lines S) × (new s (length (contents s)) config ≡ some l)
        × IsLines lr l
        × (l.reader ≡ s)
        × (pending lr l < length (contents s) + 2)
  unfolding new
  new-IsLines s config v h =
      let n = length (contents s) in
      let (d, p, _, _, _) = num_hex_digits-bounds (config.offset + n) h in
      (
        record {
          reader = s;
          pad_offset_to = max d 4;
          offset = config.offset;
          remaining = n;
          emit_empty_line = config.at_least_one_line;
        },
        rw (lt→ltb (config.offset + n) usize_mod h, p) refl,
        record {
          valid = v;
          left = refl;
          small = h;
          last_digits = d;
          has_digits = p;
          padded = omega arith;
        },
        refl,
        at_most_two config.at_least_one_line n,
      )

  -- A hexdump of a reader that keeps the contract of a reader's position and is valid, at an
  -- offset that with its length is a `usize`, ends and does not panic; its text is the header if
  -- it is wanted, then that of lines that together show the bytes of the reader, and a newline
  -- if it is wanted.
  pub display_lem :
      (s : S) (config : Config)
      → lr.valid s
      → config.offset + length (contents s) < usize_mod
      → (ls : List Line) × (t : List ℕ) × (lines_bytes ls ≡ contents s)
        × (display_lines ls ≡ some t)
        × (display r s (length (contents s)) config
            ≡ some (
                (if config.header then header_text (length (contents s)) else [])
                ++ t
                ++ (if config.trailing_newline then 10 ∷ [] else [])))
  unfolding display
  display_lem s config v h =
      let n = length (contents s) in
      let (l, p, w, e, k) = new-IsLines s config v h in
      let (ls, q, a, b) = all_lines_lem lr (n + 2) l w k in
      let (t, f) = display_lines_lem ls a in (ls, t, b ∙ ap contents e, f, rw (p, q, f) refl)
