-- ===== src/Text.antt =====
-- unicode/utf8.ValidString and the regular expressions of the schemas, which all have the form
-- `^[first][rest]{0,n}$`, as tests on byte strings.
pub mod Pieces
pub mod Classes
use ai_config_selector.Prelude.{
  ℕ, Bool, true, false, ◌&&◌, ◌||◌, List, [], ◌∷◌, leb, ◌==◌, if◌then◌else◌, length, ◌-◌,
}
use ai_config_selector.Prelude.Bytes.{Bytes}

abbrev pub between : ℕ → ℕ → ℕ → Bool
between lo hi c = leb lo c && leb c hi

-- How many bytes are to follow, and the range of the next one.
pub record Awaiting : Type 0 where
  pub accepted : Bool
  pub missing : ℕ
  pub low : ℕ
  pub high : ℕ

abbrev pub awaiting : ℕ → ℕ → ℕ → Awaiting
awaiting n lo hi = record { accepted = true; missing = n; low = lo; high = hi }

abbrev pub refused : Awaiting
refused = record { accepted = false; missing = 0; low = 0x80; high = 0xBF }

-- The first byte of a code point.
unfoldable pub lead : ℕ → Awaiting
lead b =
    if leb b 0x7F
    then awaiting 0 0x80 0xBF
    else if between 0xC2 0xDF b
    then awaiting 1 0x80 0xBF
    else if b == 0xE0
    then awaiting 2 0xA0 0xBF
    else if b == 0xED
    then awaiting 2 0x80 0x9F
    else if between 0xE1 0xEF b
    then awaiting 2 0x80 0xBF
    else if b == 0xF0
    then awaiting 3 0x90 0xBF
    else if between 0xF1 0xF3 b
    then awaiting 3 0x80 0xBF
    else if b == 0xF4
    then awaiting 3 0x80 0x8F
    else refused

unfoldable pub next : ℕ → ℕ → ℕ → ℕ → Awaiting
next missing lo hi b =
    if missing == 0
    then lead b
    else if between lo hi b
    then awaiting (missing - 1) 0x80 0xBF
    else refused

unfoldable pub valid_from : ℕ → ℕ → ℕ → Bytes → Bool
valid_from missing lo hi [] = missing == 0
valid_from missing lo hi (b ∷ bs) =
    let a = next missing lo hi b in a.accepted && valid_from a.missing a.low a.high bs

-- utf8.ValidString(s)
unfoldable pub valid_string : Bytes → Bool
valid_string s = valid_from 0 0x80 0xBF s

unfoldable pub all_bytes : (ℕ → Bool) → Bytes → Bool
all_bytes p [] = true
all_bytes p (c ∷ cs) = p c && all_bytes p cs

-- A regular expression `^[first][rest]{0,maximum}$` matches s.
unfoldable pub matches : (ℕ → Bool) → (ℕ → Bool) → ℕ → Bytes → Bool
matches first rest maximum [] = false
matches first rest maximum (c ∷ cs) = first c && (all_bytes rest cs && leb (length cs) maximum)

abbrev pub is_lower : ℕ → Bool
is_lower c = between b'a' b'z' c

abbrev pub is_upper : ℕ → Bool
is_upper c = between b'A' b'Z' c

abbrev pub is_digit : ℕ → Bool
is_digit c = between b'0' b'9' c

-- `._-`
abbrev pub is_mark : ℕ → Bool
is_mark c = c == b'.' || c == b'_' || c == b'-'

-- `^[a-z][a-z0-9._-]{0,63}$`
unfoldable pub entry_id_matches : Bytes → Bool
entry_id_matches = matches is_lower (λ c. is_lower c || is_digit c || is_mark c) 63
