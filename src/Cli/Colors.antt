-- ===== src/Cli/Colors.antt =====
-- app/src/cli.c: colors as hexadecimal digits.
use droidctl.Base.{
  ℕ, ◌+◌, ◌*◌, ◌/◌, ◌%◌, ◌<◌, ◌≡◌, refl, ◌∙◌, ap, arith, Bool, true, false, some, List, [], ◌∷◌,
  ◌++◌, ltb, ◌==◌, if◌then◌else◌,
}
use droidctl.Base.Bits.{bit_or_sum}
use droidctl.Binary.{u8}
use droidctl.Cli.{
  parse_hex_char, hex_pair, parse_hex_byte, doubled, color_of, parse_hex_digits, parse_hex_color,
}

-- The digit of a value below 16, in lower or upper case.
unfoldable pub digit : Bool → ℕ → ℕ
digit upper d = if ltb d 10 then 48 + d else if upper then 55 + d else 87 + d

unfoldable pub color_digits : Bool → ℕ → ℕ → ℕ → List ℕ
color_digits upper r g b =
    digit upper (r / 16)
    ∷ digit upper (r % 16)
    ∷ digit upper (g / 16)
    ∷ digit upper (g % 16)
    ∷ digit upper (b / 16)
    ∷ digit upper (b % 16)
    ∷ []

abbrev pub hash : Bool → List ℕ
hash true = 35 ∷ []
hash false = []

parse_hex_char-digit : (upper : Bool) (d : ℕ) → d < 16 → parse_hex_char (digit upper d) ≡ some d
unfolding parse_hex_char digit
parse_hex_char-digit upper d small = ground arith

digit_no_hash : (upper : Bool) (d : ℕ) → d < 16 → (digit upper d == 35) ≡ false
unfolding digit
digit_no_hash upper d small = ground arith

parse_hex_byte-digits :
    (upper : Bool) (b : ℕ) (rest : List ℕ)
    → b < 256
    → parse_hex_byte (digit upper (b / 16) ∷ digit upper (b % 16) ∷ rest) ≡ some b
unfolding parse_hex_byte hex_pair
parse_hex_byte-digits upper b rest small =
    rw
      (
        parse_hex_byte,
        parse_hex_char-digit upper (b / 16) (omega arith),
        parse_hex_char-digit upper (b % 16) (omega arith),
        bit_or_sum 4 {x = b / 16 * 16} (b / 16) (b % 16) (omega arith) (omega arith),
      )
      (ap some (omega arith))

color_sum :
    (r g b : ℕ)
    → g < 256
    → b < 256
    → color_of (some r) (some g) (some b) ≡ some (r * 65536 + g * 256 + b)
unfolding color_of
color_sum r g b g_small b_small =
    rw
      (
        bit_or_sum 16 {x = r * 65536} r (g * 256) (omega arith) (omega arith),
        bit_or_sum 8 {x = r * 65536 + g * 256} (r * 256 + g) b (omega arith) (omega arith),
      )
      refl

behind_hash :
    (with_hash upper : Bool) (d : ℕ) (rest : List ℕ)
    → d < 16
    → parse_hex_color (hash with_hash ++ digit upper d ∷ rest)
      ≡ parse_hex_digits (digit upper d ∷ rest)
unfolding parse_hex_color
behind_hash true upper d rest small = refl
behind_hash false upper d rest small = rw (parse_hex_color, digit_no_hash upper d small) refl

-- Three digits in place of six, each of which stands twice.
pub parse_hex_color_short :
    (with_hash upper : Bool) (r g b : ℕ)
    → r < 16
    → g < 16
    → b < 16
    → parse_hex_color (hash with_hash ++ digit upper r ∷ digit upper g ∷ digit upper b ∷ [])
      ≡ some (r * 17 * 65536 + g * 17 * 256 + b * 17)
unfolding parse_hex_digits doubled
parse_hex_color_short with_hash upper r g b r_small g_small b_small =
    behind_hash with_hash upper r _ r_small
    ∙ (rw
        (
          parse_hex_digits,
          parse_hex_char-digit upper r r_small,
          parse_hex_char-digit upper g g_small,
          parse_hex_char-digit upper b b_small,
        )
        (rw (doubled_small r r_small, doubled_small g g_small, doubled_small b b_small)
          (color_sum (r * 17) (g * 17) (b * 17) (omega arith) (omega arith))))
  where
    doubled_small : (d : ℕ) → d < 16 → u8 (d * 17) ≡ d * 17
    doubled_small d small = omega arith

-- A color of three bytes, as the two digits of each in either case, with or without a `#` in
-- front, is read as that color.
pub parse_hex_color-digits :
    (with_hash upper : Bool) (r g b : ℕ)
    → r < 256
    → g < 256
    → b < 256
    → parse_hex_color (hash with_hash ++ color_digits upper r g b) ≡ some (r * 65536 + g * 256 + b)
unfolding color_digits parse_hex_digits
parse_hex_color-digits with_hash upper r g b r_small g_small b_small =
    behind_hash with_hash upper (r / 16) _ (omega arith)
    ∙ (rw
        (
          parse_hex_digits,
          parse_hex_byte-digits upper r _ r_small,
          parse_hex_byte-digits upper g _ g_small,
          parse_hex_byte-digits upper b [] b_small,
        )
        (color_sum r g b g_small b_small))
