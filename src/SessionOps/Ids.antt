-- ===== src/SessionOps/Ids.antt =====
-- internal/sessionops/sessionops.go: the identifiers of the Sessions.
use ai_config_selector.Prelude.{ℕ, Bool, true, ◌&&◌, ◌||◌, leb, ◌==◌, [], ◌∷◌, length}
use ai_config_selector.Prelude.Bytes.{Bytes, codes, has_prefix}

-- a to z and 2 to 7, the digits of the base 32 of the identifiers
abbrev pub is_digit : ℕ → Bool
is_digit c = (leb b'a' c && leb c b'z') || (leb b'2' c && leb c b'7')

unfoldable pub all_digits : Bytes → Bool
all_digits [] = true
all_digits (c ∷ cs) = is_digit c && all_digits cs

-- id[4:]
abbrev pub after_four : Bytes → Bytes
after_four (a ∷ b ∷ c ∷ d ∷ rest) = rest
after_four _ = []

unfoldable pub valid_id : Bytes → Bool
valid_id id = (length id == 30) && (has_prefix id (codes "ses_") && all_digits (after_four id))
