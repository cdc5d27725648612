-- ===== src/Tests/Intent/Exclusions.antt =====
-- internal/exclusionintent/schema.go on a selection of two denied paths.
use mathlib.Core.List.{Permᴰ}
use ai_config_selector.Prelude.{Result, ok, refl, ◌≡◌, List, [], ◌∷◌, All}
use ai_config_selector.Prelude.Bytes.{codes, bytes_eq, bytes_lt, seen, has_prefix, contains_byte}
use ai_config_selector.Prelude.Order.{bytes_order}
use ai_config_selector.Prelude.Sort.{sort_by, insert_by}
use ai_config_selector.GoPath.{
  clean, render, components, clean_stack, clean_step, backtrack, split, join, join_tail, is_abs,
}
use ai_config_selector.Text.{
  entry_id_matches, matches, all_bytes, valid_string, valid_from, next, lead,
}
use ai_config_selector.Intent.Schema
use ai_config_selector.Intent.Schema.{admit_all}
use ai_config_selector.Intent.Schema.Checked.{checked_admit}
use ai_config_selector.Intent.Reference.{
  anchor, valid_path, clean_relative, clean_absolute, trim_root, validate_reference, relative_case,
  absolute_case, workspace_relative, local_absolute,
}
use ai_config_selector.Intent.Reference.Laws.{Anchored}
use ai_config_selector.Intent.Exclusions
use ai_config_selector.Intent.Exclusions.Canonical.{
  canonical_exclusions_stable, canonical_exclusions-Anchored,
}

abbrev secrets : Exclusions.Entry
secrets = record {
  id = codes "secrets";
  type = codes "directory";
  reference = record { kind = workspace_relative; path = codes "./.secrets" };
}

abbrev secrets_clean : Exclusions.Entry
secrets_clean = record secrets {
  reference = record { kind = workspace_relative; path = codes ".secrets" };
}

abbrev keys : Exclusions.Entry
keys = record {
  id = codes "keys";
  type = codes "file";
  reference = record { kind = local_absolute; path = codes "/home/u/.ssh/id" };
}

run_exclusions : List Exclusions.Entry → Result Exclusions.ExclusionError (List Exclusions.Entry)
unfolding Exclusions.canonical Schema.canonical admit_all checked_admit entry_id_matches matches
    all_bytes seen Exclusions.validate bytes_eq validate_reference valid_path valid_string
    valid_from next lead contains_byte anchor relative_case backtrack clean clean_stack clean_step
    components is_abs join join_tail render split Exclusions.destination absolute_case
    clean_absolute clean_relative trim_root bytes_lt has_prefix insert_by sort_by
run_exclusions es = Exclusions.canonical es

two_exclusions : Exclusions.canonical (secrets ∷ keys ∷ []) ≡ ok (keys ∷ secrets_clean ∷ [])
unfolding run_exclusions
two_exclusions = refl

canonical_exclusions_stable_example :
    (Exclusions.canonical (keys ∷ secrets_clean ∷ []) ≡ ok (keys ∷ secrets_clean ∷ []))
    × (Exclusions.canonical (keys ∷ secrets ∷ []) ≡ ok (keys ∷ secrets_clean ∷ []))
canonical_exclusions_stable_example =
    canonical_exclusions_stable (secrets ∷ keys ∷ []) (keys ∷ secrets ∷ [])
      (keys ∷ secrets_clean ∷ []) (Permᴰ.swap refl refl) two_exclusions

canonical_exclusions-Anchored_example :
    All
      (λ (e : Exclusions.Entry). Anchored e.reference.kind e.reference.path)
      (keys ∷ secrets_clean ∷ [])
canonical_exclusions-Anchored_example =
    canonical_exclusions-Anchored (secrets ∷ keys ∷ []) (keys ∷ secrets_clean ∷ []) two_exclusions
