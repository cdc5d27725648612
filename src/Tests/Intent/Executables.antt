-- ===== src/Tests/Intent/Executables.antt =====
-- internal/executableintent/schema.go on a selection of two executables.
use ai_config_selector.Prelude.{Result, ok, refl, ◌≡◌, List, [], ◌∷◌, All}
use ai_config_selector.Prelude.Bytes.{codes, bytes_eq, bytes_lt, seen, has_prefix, contains_byte}
use ai_config_selector.Prelude.Order.{bytes_order}
use ai_config_selector.Prelude.Sort.{sort_by, insert_by}
use ai_config_selector.GoPath.{
  clean, render, components, clean_stack, clean_step, backtrack, split, join, join_tail, is_abs,
}
use ai_config_selector.Text.{
  entry_id_matches, matches, all_bytes, valid_string, valid_from, next, lead,
}
use ai_config_selector.Intent.Schema
use ai_config_selector.Intent.Schema.{admit_all}
use ai_config_selector.Intent.Schema.Checked.{checked_admit}
use ai_config_selector.Intent.Reference.{
  valid_path, clean_relative, clean_absolute, trim_root, workspace_relative,
}
use ai_config_selector.Intent.Executables
use ai_config_selector.Intent.Executables.{
  fixed_search_name, search_name_matches, refuses_search_name, refuses_relative, refuses_absolute,
  search_case, relative_case, absolute_case,
}
use ai_config_selector.Intent.Executables.Canonical.{
  canonical_executables-Resolvable, executable_destination_injective, Resolvable,
}

abbrev tool : Executables.Entry
tool = record {
  id = codes "tool";
  reference = record { kind = workspace_relative; name = []; path = codes "bin//tool" };
}

abbrev tool_clean : Executables.Entry
tool_clean = record tool {
  reference = record { kind = workspace_relative; name = []; path = codes "bin/tool" };
}

abbrev git : Executables.Entry
git = record {
  id = codes "git";
  reference = record { kind = fixed_search_name; name = codes "git"; path = [] };
}

run_executables :
    List Executables.Entry → Result Executables.ExecutableError (List Executables.Entry)
unfolding Executables.canonical Schema.canonical admit_all checked_admit entry_id_matches matches
    all_bytes seen Executables.validate bytes_eq Executables.validate_reference search_name_matches
    refuses_search_name refuses_relative valid_path valid_string valid_from next lead contains_byte
    refuses_absolute search_case relative_case backtrack clean clean_stack clean_step components
    is_abs join join_tail render split Executables.destination absolute_case clean_absolute
    clean_relative trim_root bytes_lt has_prefix insert_by sort_by
run_executables es = Executables.canonical es

two_executables : Executables.canonical (tool ∷ git ∷ []) ≡ ok (git ∷ tool_clean ∷ [])
unfolding run_executables
two_executables = refl

canonical_executables-Resolvable_example :
    All (λ (e : Executables.Entry). Resolvable e.reference) (git ∷ tool_clean ∷ [])
canonical_executables-Resolvable_example =
    canonical_executables-Resolvable (tool ∷ git ∷ []) (git ∷ tool_clean ∷ []) two_executables

abbrev git_again : Executables.Entry
git_again = record git { id = codes "git.two" }

git_valid : Executables.validate git ≡ ok git
unfolding run_executables
git_valid = refl

git_again_valid : Executables.validate git_again ≡ ok git_again
unfolding run_executables
git_again_valid = refl

same_key : Executables.destination git ≡ Executables.destination git_again
unfolding run_executables
same_key = refl

executable_destination_injective_example : git.reference ≡ git_again.reference
executable_destination_injective_example =
    executable_destination_injective git git_again git_valid git_again_valid same_key
