-- ===== src/SelfUpdate.antt =====
-- internal/selfupdate/update.go: the versions of ACS, and which of two is the newer one.
pub mod Order
pub mod Format
use ai_config_selector.Prelude.{
  ℕ, ◌+◌, ◌-◌, ◌*◌, ◌^◌, Bool, true, false, not, ◌&&◌, ◌||◌, ◌==◌, if◌then◌else◌, ltb, leb, List,
  [], ◌∷◌, Result, ok, err, ◌>>=◌, ◌>>◌, refuse_if, length,
}
use ai_config_selector.Prelude.Bytes.{Bytes}
use ai_config_selector.Prelude.Int.{ℤ, pos, negsuc, ltb_ℤ}
use ai_config_selector.GoPath.{split}
use ai_config_selector.Text.{is_digit, all_bytes}

-- [3]uint64
pub record Version : Type 0 where
  pub major : ℕ
  pub minor : ℕ
  pub patch : ℕ

pub data VersionError : Type 0 where
  bad_version : VersionError
  too_large : VersionError

-- The digits as a number, as strconv.ParseUint reads them.
unfoldable pub decimal : ℕ → Bytes → ℕ
decimal value [] = value
decimal value (c ∷ cs) = decimal (value * 10 + (c - b'0')) cs

abbrev pub starts_zero : Bytes → Bool
starts_zero [] = false
starts_zero (c ∷ cs) = c == b'0'

unfoldable pub malformed : Bytes → Bool
malformed p = (length p == 0 || (ltb 1 (length p) && starts_zero p)) || not (all_bytes is_digit p)

unfoldable pub component : Bytes → Result VersionError ℕ
component p =
    refuse_if (malformed p) bad_version
    >> (refuse_if (leb (2 ^ 64) (decimal 0 p)) too_large >> ok (decimal 0 p))

unfoldable pub three_components : List Bytes → Result VersionError Version
three_components (a ∷ b ∷ c ∷ []) = component a >>= (λ x.
    component b >>= (λ y. component c >>= (λ z. ok (record { major = x; minor = y; patch = z }))))
three_components _ = err bad_version

unfoldable pub parse_version : Bytes → Result VersionError Version
parse_version [] = err bad_version
parse_version (c ∷ cs) = if c == b'v' then three_components (split b'.' cs) else err bad_version

-- The loop's step on one pair of numbers, and the rest of the loop.
abbrev pub compare_then : ℕ → ℕ → ℤ → ℤ
compare_then a b rest = if ltb a b then negsuc 0 else if ltb b a then pos 1 else rest

unfoldable pub compare_versions : Version → Version → ℤ
compare_versions a b =
    compare_then a.major b.major
      (compare_then a.minor b.minor (compare_then a.patch b.patch (pos 0)))

-- Result.Available and Result.Downgrade of Run, for a current version that is known.
unfoldable pub available : Version → Version → Bool
available current target = ltb_ℤ (compare_versions current target) (pos 0)

unfoldable pub downgrade : Version → Version → Bool
downgrade current target = ltb_ℤ (pos 0) (compare_versions current target)
