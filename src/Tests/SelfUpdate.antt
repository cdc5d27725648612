-- ===== src/Tests/SelfUpdate.antt =====
-- internal/selfupdate/update.go on two versions.
use ai_config_selector.Prelude.{Bool, true, refl, ◌≡◌, ◌⊎◌, ◌↔◌, Result, ok, err}
use ai_config_selector.Prelude.Bytes.{Bytes, codes}
use ai_config_selector.GoPath.{split}
use ai_config_selector.Text.{all_bytes}
use ai_config_selector.Release.Publication.{version_matches}
use ai_config_selector.SelfUpdate.{
  Version, VersionError, bad_version, too_large, decimal, malformed, component, three_components,
  parse_version, compare_versions, available, downgrade,
}
use ai_config_selector.SelfUpdate.Order.{available_iff, Later}
use ai_config_selector.SelfUpdate.Format.{parse_version-IsVersion, IsVersion, HasLargeNumber}

abbrev installed : Version
installed = record { major = 1; minor = 9; patch = 12 }

abbrev published : Version
published = record { major = 1; minor = 10; patch = 0 }

run_version : Bytes → Result VersionError Version
unfolding decimal malformed component three_components parse_version split all_bytes
run_version s = parse_version s

run_available : Version → Version → Bool
unfolding compare_versions available downgrade
run_available a b = available a b

version_read : parse_version (codes "v1.9.12") ≡ ok installed
unfolding run_version
version_read = refl

leading_zero_refused : parse_version (codes "v1.09.12") ≡ err bad_version
unfolding run_version
leading_zero_refused = refl

two_to_64_refused : parse_version (codes "v1.18446744073709551616.0") ≡ err too_large
unfolding run_version
two_to_64_refused = refl

largest_read :
    parse_version (codes "v18446744073709551615.0.0")
    ≡ ok (record { major = 18446744073709551615; minor = 0; patch = 0 })
unfolding run_version
largest_read = refl

update_available : available installed published ≡ true
unfolding run_available
update_available = refl

available_iff_example :
    ((available installed published ≡ true) ↔ Later installed published)
    × ((downgrade installed published ≡ true) ↔ Later published installed)
available_iff_example = available_iff installed published

parse_version-IsVersion_example :
    ((v : Version) → (parse_version (codes "v1.9.12") ≡ ok v) ↔ IsVersion (codes "v1.9.12") v)
    × ((v : Version) → IsVersion (codes "v1.9.12") v → version_matches (codes "v1.9.12") ≡ true)
    × (version_matches (codes "v1.9.12") ≡ true
        → ((v : Version) × (parse_version (codes "v1.9.12") ≡ ok v))
          ⊎ ((parse_version (codes "v1.9.12") ≡ err too_large) × HasLargeNumber (codes "v1.9.12")))
parse_version-IsVersion_example = parse_version-IsVersion (codes "v1.9.12")
