-- ===== src/Tests/Intent/Paths.antt =====
-- internal/pathintent/schema.go on a selection of two paths, and on one that escapes.
use mathlib.Core.List.{Permᴰ}
use ai_config_selector.Prelude.{Result, ok, err, refl, ◌≡◌, List, [], ◌∷◌, All, arith}
use ai_config_selector.Prelude.Bytes.{codes, bytes_eq, bytes_lt, seen, has_prefix, contains_byte}
use ai_config_selector.Prelude.Order.{bytes_order}
use ai_config_selector.Prelude.Distinct.{Distinct}
use ai_config_selector.Prelude.Int.{int_order}
use ai_config_selector.Prelude.Sort.{sort_by, insert_by}
use ai_config_selector.GoPath.{
  clean, render, components, clean_stack, clean_step, backtrack, split, join, join_tail, is_abs,
}
use ai_config_selector.Text.{
  entry_id_matches, matches, all_bytes, valid_string, valid_from, next, lead,
}
use ai_config_selector.Intent.Schema
use ai_config_selector.Intent.Schema.{admit_all}
use ai_config_selector.Intent.Schema.Checked.{checked_admit}
use ai_config_selector.Intent.Reference.{
  anchor, escaping, valid_path, clean_relative, clean_absolute, trim_root, validate_reference,
  relative_case, absolute_case, workspace_relative, local_absolute,
}
use ai_config_selector.Intent.Reference.Laws.{Anchored}
use ai_config_selector.Intent.Paths
use ai_config_selector.Intent.Paths.Canonical.{
  canonical_paths_idem, canonical_paths_reorder, canonical_paths-Anchored, canonical_paths_complete,
  AllValid,
}

-- pathintent.

abbrev library : Paths.Entry
library = record {
  id = codes "lib";
  access = codes "read-only";
  type = codes "directory";
  reference = record { kind = workspace_relative; path = codes "src/../lib/./go//" };
}

abbrev library_clean : Paths.Entry
library_clean = record library {
  reference = record { kind = workspace_relative; path = codes "lib/go" };
}

abbrev notes : Paths.Entry
notes = record {
  id = codes "a.notes";
  access = codes "read-write";
  type = codes "file";
  reference = record { kind = local_absolute; path = codes "/home/../srv/notes" };
}

abbrev notes_clean : Paths.Entry
notes_clean = record notes {
  reference = record { kind = local_absolute; path = codes "/srv/notes" };
}

abbrev escaping_entry : Paths.Entry
escaping_entry = record library {
  reference = record { kind = workspace_relative; path = codes "src/../../etc" };
}

-- Its line opens all that a run of Canonical of pathintent calls.
run_paths : List Paths.Entry → Result Paths.PathError (List Paths.Entry)
unfolding Paths.canonical Schema.canonical admit_all checked_admit entry_id_matches matches
    all_bytes seen Paths.validate bytes_eq validate_reference valid_path valid_string valid_from
    next lead contains_byte anchor relative_case backtrack clean clean_stack clean_step components
    is_abs join join_tail render split Paths.destination absolute_case clean_absolute clean_relative
    trim_root bytes_lt has_prefix insert_by sort_by
run_paths es = Paths.canonical es

two_paths : Paths.canonical (library ∷ notes ∷ []) ≡ ok (notes_clean ∷ library_clean ∷ [])
unfolding run_paths
two_paths = refl

escape_refused : Paths.canonical (escaping_entry ∷ []) ≡ err (Paths.bad_reference escaping)
unfolding run_paths
escape_refused = refl

canonical_paths_idem_example :
    Paths.canonical (notes_clean ∷ library_clean ∷ []) ≡ ok (notes_clean ∷ library_clean ∷ [])
canonical_paths_idem_example =
    canonical_paths_idem (library ∷ notes ∷ []) (notes_clean ∷ library_clean ∷ []) two_paths

canonical_paths_reorder_example :
    Paths.canonical (notes ∷ library ∷ []) ≡ ok (notes_clean ∷ library_clean ∷ [])
canonical_paths_reorder_example =
    canonical_paths_reorder (library ∷ notes ∷ []) (notes ∷ library ∷ [])
      (notes_clean ∷ library_clean ∷ []) (Permᴰ.swap refl refl) two_paths

canonical_paths-Anchored_example :
    All
      (λ (e : Paths.Entry). Anchored e.reference.kind e.reference.path)
      (notes_clean ∷ library_clean ∷ [])
canonical_paths-Anchored_example =
    canonical_paths-Anchored (library ∷ notes ∷ []) (notes_clean ∷ library_clean ∷ []) two_paths

both_valid : AllValid (library ∷ notes ∷ []) (library_clean ∷ notes_clean ∷ [])
unfolding run_paths
both_valid = (refl, refl, (refl, refl, tt))

ids_differ : Distinct (λ (e : Paths.Entry). e.id) (library_clean ∷ notes_clean ∷ [])
ids_differ = (((λ e. cc), tt), (tt, tt))

destinations_differ : Distinct Paths.destination (library_clean ∷ notes_clean ∷ [])
unfolding run_paths
destinations_differ = (((λ e. cc), tt), (tt, tt))

canonical_paths_complete_example :
    Paths.canonical (library ∷ notes ∷ [])
    ≡ ok (sort_by (λ (e : Paths.Entry). e.id) (library_clean ∷ notes_clean ∷ []))
canonical_paths_complete_example =
    canonical_paths_complete (library ∷ notes ∷ []) (library_clean ∷ notes_clean ∷ []) (omega arith)
      both_valid ids_differ destinations_differ
