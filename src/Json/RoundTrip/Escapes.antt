-- ===== src/Json/RoundTrip/Escapes.antt =====
-- The text of a string, written and read.
use relops_hardware_controll.Prelude.{
  ℕ, suc, ◌+◌, ◌-◌, ◌*◌, ◌/◌, ◌%◌, ◌<◌, ◌≤◌, ◌≡◌, ◌⊎◌, refl, ap, ◌∙◌, String, Char, code, Bool,
  true, false, ◌&&◌, eqb, ltb, leb, Bool-cases, inl, inr, some, arith, if◌then◌else◌,
}
use relops_hardware_controll.Json.Chars.{chr}
use relops_hardware_controll.Json.Printer.{hex_digit, hex4, unicode_escape, escape, escape_all}
use relops_hardware_controll.Json.Strings.{
  plain, hex, high, low, unescape, emit, action, plain_action, escaped_action, hex_action,
  low_action, unit_action, pair_action, push, read_string, is_high, is_low,
}
use relops_hardware_controll.Json.RoundTrip.Digits.{
  hex_value-hex_digit, code_scalar, chr-code, digits_value,
}

read-hex_digit :
    (left v m : ℕ) (s : String)
    → read_string (hex (suc (suc left)) v) (String.◌∷◌ (hex_digit m) s)
      ≡ read_string (hex (suc left) (v * 16 + m % 16)) s
unfolding read_string action hex_action
read-hex_digit left v m s = rw (hex_value-hex_digit m, read_string, action)

read-low_digit :
    (first left v m : ℕ) (s : String)
    → read_string (low first (suc (suc left)) v) (String.◌∷◌ (hex_digit m) s)
      ≡ read_string (low first (suc left) (v * 16 + m % 16)) s
unfolding read_string action low_action
read-low_digit first left v m s = rw (hex_value-hex_digit m, read_string, action)

read-last_digit :
    (v m n : ℕ) (s : String)
    → v * 16 + m % 16 ≡ n
    → is_high n ≡ false
    → read_string (hex 1 v) (String.◌∷◌ (hex_digit m) s) ≡ push (chr n) (read_string plain s)
unfolding read_string action hex_action unit_action
read-last_digit v m n s e h = rw (hex_value-hex_digit m, read_string, action) (rw (e, h))

read-last_digit_high :
    (v m n : ℕ) (s : String)
    → v * 16 + m % 16 ≡ n
    → is_high n ≡ true
    → read_string (hex 1 v) (String.◌∷◌ (hex_digit m) s) ≡ read_string (high n) s
unfolding read_string action hex_action unit_action
read-last_digit_high v m n s e h = rw (hex_value-hex_digit m, read_string, action) (rw (e, h))

read-last_low_digit :
    (first v m n : ℕ) (s : String)
    → v * 16 + m % 16 ≡ n
    → is_low n ≡ true
    → read_string (low first 1 v) (String.◌∷◌ (hex_digit m) s)
      ≡ push (chr (0x10000 + (first - 0xd800) * 0x400 + (n - 0xdc00))) (read_string plain s)
unfolding read_string action low_action pair_action
read-last_low_digit first v m n s e h = rw (hex_value-hex_digit m, read_string, action) (rw (e, h))

read-hex4 :
    (n : ℕ) (s : String)
    → n < 65536
    → is_high n ≡ false
    → read_string plain (hex4 n s) ≡ push (chr n) (read_string plain s)
unfolding hex4 read_string action plain_action escaped_action
read-hex4 n s h unpaired =
    read-hex_digit 2 0 (n / 4096) _
    ∙ read-hex_digit 1 _ (n / 256) _
    ∙ read-hex_digit 0 _ (n / 16) _
    ∙ read-last_digit _ n n s (digits_value n h) unpaired

read-hex4_high :
    (n : ℕ) (s : String)
    → n < 65536
    → is_high n ≡ true
    → read_string plain (hex4 n s) ≡ read_string (high n) s
unfolding hex4 read_string action plain_action escaped_action
read-hex4_high n s h paired =
    read-hex_digit 2 0 (n / 4096) _
    ∙ read-hex_digit 1 _ (n / 256) _
    ∙ read-hex_digit 0 _ (n / 16) _
    ∙ read-last_digit_high _ n n s (digits_value n h) paired

read-hex4_low :
    (first n : ℕ) (s : String)
    → n < 65536
    → is_low n ≡ true
    → read_string (high first) (hex4 n s)
      ≡ push (chr (0x10000 + (first - 0xd800) * 0x400 + (n - 0xdc00))) (read_string plain s)
unfolding hex4 read_string action
read-hex4_low first n s h paired =
    read-low_digit first 2 0 (n / 4096) _
    ∙ read-low_digit first 1 _ (n / 256) _
    ∙ read-low_digit first 0 _ (n / 16) _
    ∙ read-last_low_digit first _ n n s (digits_value n h) paired

-- The two halves of a code point above 0xffff.
halves :
    (n : ℕ)
    → 0x10000 ≤ n
    → n < 1114112
    → 0x10000
        + (0xd800 + (n - 0x10000) / 0x400 - 0xd800) * 0x400
        + (0xdc00 + (n - 0x10000) % 0x400 - 0xdc00)
      ≡ n
halves n h k = omega arith

read-unicode_escape :
    (c : Char) (s : String)
    → read_string plain (unicode_escape (code c) s) ≡ push (some c) (read_string plain s)
unfolding unicode_escape
read-unicode_escape c s = elim (Bool-cases (ltb (code c) 0x10000)) [
  | inl small ↦ rw small (
      read-hex4 (code c) s (ground arith) (unpaired (code_scalar c))
      ∙ ap (λ o. push o (read_string plain s)) (chr-code c))
  | inr large ↦
      let first = 0xd800 + (code c - 0x10000) / 0x400 in
      let second = 0xdc00 + (code c - 0x10000) % 0x400 in
      let above : 0x10000 ≤ code c = ground arith in
      let below : code c < 1114112 = limit (code_scalar c) in
      rw large (
        read-hex4_high first _ (omega arith) (ground arith)
        ∙ read-hex4_low first second s (omega arith) (ground arith)
        ∙ ap (λ n. push (chr n) (read_string plain s)) (halves (code c) above below)
        ∙ ap (λ o. push o (read_string plain s)) (chr-code c))
]
  where
    unpaired : (code c < 55296) ⊎ ((57343 < code c) × (code c < 1114112)) → is_high (code c) ≡ false
    unpaired (inl h) = ground arith
    unpaired (inr (h, k)) = ground arith

    limit : (code c < 55296) ⊎ ((57343 < code c) × (code c < 1114112)) → code c < 1114112
    limit (inl h) = omega arith
    limit (inr (h, k)) = k

read-emit :
    (c : Char) (n : ℕ) (s : String)
    → code c ≡ n
    → push (chr n) (read_string plain s) ≡ push (some c) (read_string plain s)
read-emit c n s e = rw (← e) (ap (λ o. push o (read_string plain s)) (chr-code c))

read-simple_escape :
    (letter c : Char) (s : String)
    → escaped_action (code letter) ≡ emit (code c)
    → read_string plain (String.◌∷◌ "\\" (String.◌∷◌ letter s))
      ≡ push (some c) (read_string plain s)
unfolding read_string action plain_action
read-simple_escape letter c s h =
    rw (h, read_string, action) (ap (λ o. push o (read_string plain s)) (chr-code c))

read-plain :
    (c : Char) (s : String)
    → plain_action (code c) ≡ emit (code c)
    → read_string plain (String.◌∷◌ c s) ≡ push (some c) (read_string plain s)
unfolding read_string action
read-plain c s h = rw (h, read_string, action) (ap (λ o. push o (read_string plain s)) (chr-code c))

-- A text by a test is read as `c`, if the text of each branch is.
by_test :
    (b : Bool) (c : Char) (yes_text no_text s : String)
    → (b ≡ true → read_string plain yes_text ≡ push (some c) (read_string plain s))
    → (b ≡ false → read_string plain no_text ≡ push (some c) (read_string plain s))
    → read_string plain (if b then yes_text else no_text) ≡ push (some c) (read_string plain s)
by_test true c yes_text no_text s h k = h refl
by_test false c yes_text no_text s h k = k refl

-- What was written for a character is read as this character.
read-escape :
    (c : Char) (s : String) → read_string plain (escape c s) ≡ push (some c) (read_string plain s)
unfolding escape plain_action escaped_action unescape
read-escape c s =
    by_test (eqb (code c) b'"') c _ _ s (λ is. read-simple_escape "\"" c s (ground arith))
      λ unquoted.
        by_test (eqb (code c) b'\\') c _ _ s (λ is. read-simple_escape "\\" c s (ground arith))
          λ unslashed.
            by_test (eqb (code c) 10) c _ _ s (λ is. read-simple_escape "n" c s (ground arith))
              λ _.
                by_test (eqb (code c) 13) c _ _ s (λ is. read-simple_escape "r" c s (ground arith))
                  λ _.
                    by_test (eqb (code c) 9) c _ _ s
                      (λ is. read-simple_escape "t" c s (ground arith))
                      λ _.
                        by_test (eqb (code c) 8) c _ _ s
                          (λ is. read-simple_escape "b" c s (ground arith))
                          λ _.
                            by_test (eqb (code c) 12) c _ _ s
                              (λ is. read-simple_escape "f" c s (ground arith))
                              λ _.
                                by_test (leb 32 (code c) && leb (code c) 126) c _ _ s
                                  (λ is. read-plain c s (ground arith)) λ _. read-unicode_escape c s

pub read-escape_all :
    (text s : String) → read_string plain (escape_all text (String.◌∷◌ "\"" s)) ≡ some (text, s)
unfolding escape_all read_string action plain_action
read-escape_all String.[] s = refl
read-escape_all (String.◌∷◌ c text) s =
    read-escape c _ ∙ ap (push (some c)) (read-escape_all text s)
