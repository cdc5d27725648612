-- ===== src/StrictJson/Unicode.antt =====
-- internal/strictjson/unicode.go: ValidUnicode and hex4.
pub mod Grammar
pub mod Accepts
use ai_config_selector.Prelude.{
  ℕ, zero, suc, ◌+◌, ◌-◌, ◌*◌, ◌%◌, Bool, true, false, not, ◌&&◌, ◌||◌, ◌==◌, leb, if◌then◌else◌,
  Option, none, some, List, [], ◌∷◌,
}
use ai_config_selector.Prelude.Bytes.{Bytes}
use ai_config_selector.Text.{valid_string, is_digit, between}

-- The value of a hexadecimal digit.
unfoldable pub digit_value : ℕ → Option ℕ
digit_value c =
    if is_digit c
    then some (c - b'0')
    else if between b'a' b'f' c
    then some (c - b'a' + 10)
    else if between b'A' b'F' c
    then some (c - b'A' + 10)
    else none

-- `result <<= 4; result |= digit` on a uint16: the digit has four bits, so that the disjunction is a
-- sum.
abbrev pub push_digit : Option ℕ → Option ℕ → Option ℕ
push_digit (some result) (some d) = some ((result * 16) % 65536 + d)
push_digit _ _ = none

-- hex4 of four bytes; it is called with no other number of them.
unfoldable pub hex4 : ℕ → ℕ → ℕ → ℕ → Option ℕ
hex4 a b c d =
    push_digit
      (push_digit (push_digit (push_digit (some 0) (digit_value a)) (digit_value b))
        (digit_value c))
      (digit_value d)

abbrev pub is_high : ℕ → Bool
is_high v = between 0xD800 0xDBFF v

abbrev pub is_low : ℕ → Bool
is_low v = between 0xDC00 0xDFFF v

abbrev pub low_value : Option ℕ → Bool
low_value none = false
low_value (some v) = is_low v

-- The second half of a pair: what follows the six bytes `uXXXX` of the first, from the backslash on.
unfoldable pub low_follows : Bytes → Bool
low_follows (s ∷ u ∷ a ∷ b ∷ c ∷ d ∷ rest) = (s == b'\\' && u == b'u') && low_value (hex4 a b c d)
low_follows _ = false

-- What the loop does behind `\u`: how many further bytes it skips, or `none` where it returns false.
abbrev pub unit_width : Option ℕ → Bytes → Option ℕ
unit_width none rest = none
unit_width (some v) rest =
    if is_low v
    then none
    else if is_high v
    then if low_follows rest then some 10 else none
    else some 4

abbrev pub skip_unit : Option ℕ → Option ℕ
skip_unit none = none
skip_unit (some n) = some (suc n)

-- How many bytes the loop skips behind a backslash.
unfoldable pub escape_width : Bytes → Option ℕ
escape_width [] = some 0
escape_width (u ∷ a ∷ b ∷ c ∷ d ∷ rest) =
    if u == b'u' then skip_unit (unit_width (hex4 a b c d) rest) else some 1
escape_width (u ∷ rest) = if u == b'u' then none else some 1

-- How many bytes the loop skips behind the byte `c`.
abbrev pub width_at : ℕ → Bytes → Option ℕ
width_at c cs = if c == b'\\' then escape_width cs else some 0

-- The loop over `data`, where `skip` is the number of bytes by which `index` is ahead.
unfoldable pub scan_escapes : ℕ → Bytes → Bool
scan_escapes skip [] = true
scan_escapes (suc skip) (c ∷ cs) = scan_escapes skip cs
scan_escapes zero (c ∷ cs) = elim (width_at c cs) [ none ↦ false | some n ↦ scan_escapes n cs ]

unfoldable pub valid_unicode : Bytes → Bool
valid_unicode text = valid_string text && scan_escapes 0 text
