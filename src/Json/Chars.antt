-- ===== src/Json/Chars.antt =====
-- Characters by their code points, and hexadecimal digits.
use Prim.Native.Char.{IsScalar, char}
use native.Mathlib.Decide.{dec_lt}
use mathlib.Core.Logic.{dite}
use relops_hardware_controll.Prelude.{
  ℕ, ◌+◌, ◌-◌, ◌<◌, Char, Option, some, none, arith, leb, ◌&&◌, if◌then◌else◌,
}

pub low_scalar : (n : ℕ) → n < 55296 → IsScalar n
low_scalar n h = ground arith

pub high_scalar : (n : ℕ) → 57343 < n → n < 1114112 → IsScalar n
high_scalar n h k = ground arith

-- `chr(n)`; `none` for a surrogate, which is no character of a text here.
unfoldable pub chr : ℕ → Option Char
unfolding dec_lt
chr n =
    dite (dec_lt n 55296) (λ h. some (char n (low_scalar n h)))
      (λ _.
        dite (dec_lt 57343 n)
          (λ h. dite (dec_lt n 1114112) (λ k. some (char n (high_scalar n h k))) (λ _. none))
          (λ _. none))

-- `int(c, 16)` of one digit.
unfoldable pub hex_value : ℕ → Option ℕ
hex_value c =
    if leb b'0' c && leb c b'9'
    then some (c - b'0')
    else if leb b'a' c && leb c b'f'
    then some (c - b'a' + 10)
    else if leb b'A' c && leb c b'F'
    then some (c - b'A' + 10)
    else none
