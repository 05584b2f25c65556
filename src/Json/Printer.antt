-- ===== src/Json/Printer.antt =====
-- `json.dumps` of a dictionary from texts to texts. Each function writes in front of the text that
-- it is given.
use Prim.Native.String.{char_at}
use relops_hardware_controll.Prelude.{
  ℕ, ◌+◌, ◌-◌, ◌/◌, ◌%◌, String, List, [], ◌∷◌, Char, code, ltb, leb, eqb, ◌&&◌, refl, ◌≡◌,
  if◌then◌else◌,
}

abbrev pub hex_digit : ℕ → Char
hex_digit n = char_at "0123456789abcdef" (n % 16)

-- `'\\u{0:04x}'.format(n)`
unfoldable pub hex4 : ℕ → String → String
hex4 n s = String.◌∷◌ "\\" (
    String.◌∷◌ "u" (
      String.◌∷◌ (hex_digit (n / 4096)) (
        String.◌∷◌ (hex_digit (n / 256))
          (String.◌∷◌ (hex_digit (n / 16)) (String.◌∷◌ (hex_digit n) s)))))

-- A code point outside of printable ASCII; above 0xffff a pair of surrogates.
unfoldable pub unicode_escape : ℕ → String → String
unfolding hex4
unicode_escape n s =
    if ltb n 0x10000
    then hex4 n s
    else hex4 (0xd800 + (n - 0x10000) / 0x400) (hex4 (0xdc00 + (n - 0x10000) % 0x400) s)

abbrev simple_escape : Char → String → String
simple_escape c s = String.◌∷◌ "\\" (String.◌∷◌ c s)

unfoldable pub escape : Char → String → String
unfolding unicode_escape
escape c s =
    if eqb (code c) b'"'
    then simple_escape "\"" s
    else if eqb (code c) b'\\'
    then simple_escape "\\" s
    else if eqb (code c) 10
    then simple_escape "n" s
    else if eqb (code c) 13
    then simple_escape "r" s
    else if eqb (code c) 9
    then simple_escape "t" s
    else if eqb (code c) 8
    then simple_escape "b" s
    else if eqb (code c) 12
    then simple_escape "f" s
    else if leb 32 (code c) && leb (code c) 126
    then String.◌∷◌ c s
    else unicode_escape (code c) s

unfoldable pub escape_all : String → String → String
unfolding escape
escape_all String.[] s = s
escape_all (String.◌∷◌ c text) s = escape c (escape_all text s)

unfoldable pub quote : String → String → String
unfolding escape_all
quote text s = String.◌∷◌ "\"" (escape_all text (String.◌∷◌ "\"" s))

unfoldable pub member : String × String → String → String
unfolding quote
member (key, value) s = quote key (String.◌∷◌ ":" (String.◌∷◌ " " (quote value s)))

-- Behind the first member.
unfoldable pub more_members : List (String × String) → String
unfolding member
more_members [] = "}"
more_members (m ∷ d) = String.◌∷◌ "," (String.◌∷◌ " " (member m (more_members d)))

unfoldable pub dumps : List (String × String) → String
unfolding member more_members
dumps [] = "{}"
dumps (m ∷ d) = String.◌∷◌ "{" (member m (more_members d))

dumps_test :
    dumps (("a", "x\"y\\") ∷ ("b", "1\n") ∷ ("c", "é😀") ∷ [])
    ≡ "{\"a\": \"x\\\"y\\\\\", \"b\": \"1\\n\", \"c\": \"\\u00e9\\ud83d\\ude00\"}"
unfolding dumps
dumps_test = refl
