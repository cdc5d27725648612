-- ===== src/Tests/Intent/Environment.antt =====
-- internal/environmentintent/schema.go on a host variable and a secret.
use mathlib.Core.List.{Permᴰ}
use ai_config_selector.Prelude.{true, false, Result, ok, err, refl, ◌≡◌, List, [], ◌∷◌, All}
use ai_config_selector.Prelude.Bytes.{codes, bytes_eq, bytes_lt, seen, has_prefix}
use ai_config_selector.Prelude.Order.{bytes_order}
use ai_config_selector.Prelude.Distinct.{Distinct}
use ai_config_selector.Prelude.Sort.{sort_by, insert_by, IsSorted}
use ai_config_selector.Text.{entry_id_matches, matches, all_bytes}
use ai_config_selector.Intent.Schema
use ai_config_selector.Intent.Schema.{admit_all}
use ai_config_selector.Intent.Environment
use ai_config_selector.Intent.Environment.{
  attached_process_tree, host_environment, secret_reference, non_secret, secret, valid_name,
  reserved_destination, has_any_prefix, refuses_non_secret, refuses_secret, check_source, admit,
}
use ai_config_selector.Intent.Environment.Canonical.{
  canonical_environment_stable, canonical_environment-IsSafe, IsSafe,
}

abbrev token : Environment.Entry
token = record {
  id = codes "token";
  destination = codes "API_TOKEN";
  scope = attached_process_tree;
  source = record {
    kind = secret_reference;
    name = [];
    provider = host_environment;
    reference = codes "TOKEN_2";
  };
  required = true;
  classification = secret;
}

abbrev editor : Environment.Entry
editor = record {
  id = codes "editor";
  destination = codes "EDITOR";
  scope = attached_process_tree;
  source = record { kind = host_environment; name = codes "EDITOR"; provider = []; reference = [] };
  required = false;
  classification = non_secret;
}

run_environment :
    List Environment.Entry → Result Environment.EnvironmentError (List Environment.Entry)
unfolding Environment.canonical Schema.canonical admit_all entry_id_matches matches all_bytes seen
    bytes_eq bytes_lt has_prefix insert_by sort_by valid_name reserved_destination has_any_prefix
    refuses_non_secret refuses_secret check_source admit
run_environment es = Environment.canonical es

two_variables : Environment.canonical (token ∷ editor ∷ []) ≡ ok (editor ∷ token ∷ [])
unfolding run_environment
two_variables = refl

loader_refused :
    Environment.canonical (record editor { destination = codes "LD_PRELOAD" } ∷ [])
    ≡ err Environment.bad_destination
unfolding run_environment
loader_refused = refl

canonical_environment_stable_example :
    (Environment.canonical (editor ∷ token ∷ []) ≡ ok (editor ∷ token ∷ []))
    × (Environment.canonical (editor ∷ token ∷ []) ≡ ok (editor ∷ token ∷ []))
canonical_environment_stable_example =
    canonical_environment_stable (token ∷ editor ∷ []) (editor ∷ token ∷ []) (editor ∷ token ∷ [])
      (Permᴰ.swap refl refl) two_variables

canonical_environment-IsSafe_example :
    IsSorted (λ (e : Environment.Entry). e.id) (editor ∷ token ∷ [])
    × Distinct (λ (e : Environment.Entry). e.destination) (editor ∷ token ∷ [])
    × All IsSafe (editor ∷ token ∷ [])
canonical_environment-IsSafe_example =
    canonical_environment-IsSafe (token ∷ editor ∷ []) (editor ∷ token ∷ []) two_variables
