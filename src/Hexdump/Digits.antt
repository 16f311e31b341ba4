-- ===== src/Hexdump/Digits.antt =====
-- The number of hexadecimal digits in byst/src/hexdump.rs, beside the digits that are printed.
use native.Mathlib.Nat.{pow-succ'}
use byst.Prelude.{
  ℕ, zero, suc, ◌+◌, ◌/◌, ◌%◌, ◌^◌, ◌≤◌, ◌<◌, ◌≡◌, refl, ap, ◌∙◌, inl, inr, Option, some, List, [],
  ◌∷◌, arith, eq→==, gt→==, le-or-lt, usize_mod, length,
}
use byst.Hexdump.{count_digits, num_hex_digits, digit, digits, lower_hex}

-- The count, from `d` on, and the digits that are put before `acc`.
count_digits_lem :
    (fuel n d : ℕ) (acc : List ℕ)
    → n < 16 ^ fuel
    → (e : ℕ) × (count_digits fuel n d ≡ some e)
      × (d ≤ e)
      × (e ≤ d + fuel)
      × (length (digits 16 fuel n acc) + d ≡ length acc + e)
unfolding count_digits digits
count_digits_lem zero n d acc h =
    (d, rw (eq→== n 0 (omega arith)) refl, omega arith, omega arith, refl)
count_digits_lem (suc fuel) n d acc h = elim (le-or-lt n 0) [
  | inl k ↦ let z = eq→== n 0 (omega arith) in (d, rw z refl, omega arith, omega arith, rw z refl)
  | inr k ↦
      let (e, p, x, y, l) =
        count_digits_lem fuel (n / 16) (d + 1) (digit (n % 16) ∷ acc)
          (omega (arith, pow-succ' 16 fuel)) in
      let z = gt→== n 0 k in (e, rw (z, p) refl, omega arith, omega arith, rw z (omega (arith, l)))
]

count_digits_mono :
    (fuel a b d : ℕ)
    → a ≤ b
    → b < 16 ^ fuel
    → (e f : ℕ) × (count_digits fuel a d ≡ some e) × (count_digits fuel b d ≡ some f) × (e ≤ f)
unfolding count_digits
count_digits_mono zero a b d h k =
    (d, d, rw (eq→== a 0 (omega arith)) refl, rw (eq→== b 0 (omega arith)) refl, omega arith)
count_digits_mono (suc fuel) a b d h k = elim (le-or-lt a 0) [
  | inl j ↦
      let (f, p, x, _, _) = count_digits_lem (suc fuel) b d [] k in
      (d, f, rw (eq→== a 0 (omega arith)) refl, p, x)
  | inr j ↦
      let (e, f, p, q, x) =
        count_digits_mono fuel (a / 16) (b / 16) (d + 1) (omega arith)
          (omega (arith, pow-succ' 16 fuel)) in
      (e, f, rw (gt→== a 0 j, p) refl, rw (gt→== b 0 (omega arith), q) refl, x)
]

pub same_count : {o : Option ℕ} {a b : ℕ} → o ≡ some a → o ≡ some b → a ≡ b
same_count h k = cc

-- A number that is not 0 has a digit.
count_digits_positive :
    (fuel n d e : ℕ) → 0 < n → n < 16 ^ suc fuel → count_digits (suc fuel) n d ≡ some e → d < e
unfolding count_digits
count_digits_positive fuel n d e h k p =
    let (f, q, x, _, _) =
      count_digits_lem fuel (n / 16) (d + 1) [] (omega (arith, pow-succ' 16 fuel)) in
    let z = gt→== n 0 h in omega (arith, same_count {b = f} p (rw (z, q) refl))

positive-digits : (n : ℕ) → 0 < n → num_hex_digits n ≡ count_digits 16 n 0
unfolding num_hex_digits
positive-digits n h = rw (gt→== n 0 h) refl

positive-lower_hex : (n : ℕ) → 0 < n → lower_hex n ≡ digits 16 16 n []
unfolding lower_hex
positive-lower_hex n h = rw (gt→== n 0 h) refl

zero-digits : (n : ℕ) → n ≤ 0 → (num_hex_digits n ≡ some 1) × (lower_hex n ≡ 48 ∷ [])
unfolding num_hex_digits lower_hex
zero-digits n h = (rw (eq→== n 0 (omega arith)) refl, rw (eq→== n 0 (omega arith)) refl)

-- The count is that of the digits printed, and between 1 and 16.
pub num_hex_digits-bounds :
    (n : ℕ)
    → n < usize_mod
    → (d : ℕ) × (num_hex_digits n ≡ some d) × (1 ≤ d) × (d ≤ 16) × (length (lower_hex n) ≡ d)
num_hex_digits-bounds n h = elim (le-or-lt n 0) [
  | inl k ↦ let (p, q) = zero-digits n k in (1, p, omega arith, omega arith, ap length q)
  | inr k ↦
      let (e, p, x, y, l) = count_digits_lem 16 n 0 [] h in
      (
        e,
        positive-digits n k ∙ p,
        omega (arith, count_digits_positive 15 n 0 e k h p),
        omega arith,
        omega (arith, l, ap length (positive-lower_hex n k)),
      )
]

-- A greater number has no fewer digits.
pub num_hex_digits_mono :
    (a b : ℕ)
    → a ≤ b
    → b < usize_mod
    → (d e : ℕ) × (num_hex_digits a ≡ some d) × (num_hex_digits b ≡ some e) × (d ≤ e)
num_hex_digits_mono a b h k = elim (le-or-lt a 0) [
  | inl j ↦ let (e, q, x, _, _) = num_hex_digits-bounds b k in (1, e, (zero-digits a j).0, q, x)
  | inr j ↦
      let (d, e, p, q, x) = count_digits_mono 16 a b 0 h k in
      (d, e, positive-digits a j ∙ p, positive-digits b (omega arith) ∙ q, x)
]
