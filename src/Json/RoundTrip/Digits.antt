-- ===== src/Json/RoundTrip/Digits.antt =====
-- Hexadecimal digits and characters, written and read.
use text.Mathlib.TextEquality.{Char-path}
use Prim.Native.String.{char_at}
use Prim.Native.Char.{char}
use native.Mathlib.Decide.{dec_lt}
use native.Mathlib.Bridge.{le_prop}
use mathlib.Core.Logic.{dif_pos, dif_neg}
use relops_hardware_controll.Prelude.{
  ℕ, zero, suc, ◌+◌, ◌*◌, ◌/◌, ◌%◌, ◌<◌, ◌≡◌, ◌⊎◌, refl, ap, ◌∙◌, Char, code, Bool, true, false,
  eqb, inl, inr, if◌then◌else◌, Option, none, some, arith,
}
use relops_hardware_controll.Json.Chars.{chr, hex_value, low_scalar, high_scalar}
use relops_hardware_controll.Json.Printer.{hex_digit}

-- The digit of m is read as m.
abbrev reads_as : ℕ → Option ℕ → Bool
reads_as m (some v) = eqb v m
reads_as m none = false

-- So are those of the numbers below n.
digits_read : ℕ → Bool
digits_read zero = true
digits_read (suc m) =
    let below = digits_read m in
    if reads_as m (hex_value (code (char_at "0123456789abcdef" m))) then below else false

sixteen_read : digits_read 16 ≡ true
unfolding digits_read hex_value
sixteen_read = refl

digits_read-reads_as :
    (m n : ℕ)
    → m < n
    → digits_read n ≡ true
    → reads_as m (hex_value (code (char_at "0123456789abcdef" m))) ≡ true
unfolding digits_read
digits_read-reads_as m zero below all = absurd (omega arith)
digits_read-reads_as m (suc n) below all = grind (arith, digits_read-reads_as m n)

reads_as-some : (m : ℕ) (r : Option ℕ) → reads_as m r ≡ true → r ≡ some m
reads_as-some m (some v) h = ground arith
reads_as-some m none h = ground arith

pub hex_value-hex_digit : (n : ℕ) → hex_value (code (hex_digit n)) ≡ some (n % 16)
hex_value-hex_digit n =
    reads_as-some (n % 16) _ (digits_read-reads_as (n % 16) 16 (omega arith) sixteen_read)

-- Code points of characters, and the way back.
pub code_scalar : (c : Char) → (code c < 55296) ⊎ ((57343 < code c) × (code c < 1114112))
code_scalar (char n p) = ground arith

chr-low : (n : ℕ) (h : n < 55296) → chr n ≡ some (char n (low_scalar n h))
unfolding chr
chr-low n h = rw (dif_pos (dec_lt n 55296) le_prop h)

chr-high : (n : ℕ) (h : 57343 < n) (k : n < 1114112) → chr n ≡ some (char n (high_scalar n h k))
unfolding chr
chr-high n h k = rw (
  dif_neg (dec_lt n 55296) (λ l. absurd (omega arith)),
  dif_pos (dec_lt 57343 n) le_prop h,
  dif_pos (dec_lt n 1114112) le_prop k,
)

pub chr-code : (c : Char) → chr (code c) ≡ some c
chr-code c = elim (code_scalar c) [
  | inl h ↦ chr-low (code c) h ∙ ap some (Char-path _ c refl)
  | inr (h, k) ↦ chr-high (code c) h k ∙ ap some (Char-path _ c refl)
]

-- Four digits give back the number.
pub digits_value :
    (n : ℕ)
    → n < 65536
    → (((0 * 16 + n / 4096 % 16) * 16 + n / 256 % 16) * 16 + n / 16 % 16) * 16 + n % 16 ≡ n
digits_value n h = omega arith
