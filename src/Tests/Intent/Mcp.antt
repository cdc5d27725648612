-- ===== src/Tests/Intent/Mcp.antt =====
-- internal/mcpintent/schema.go on a selection of one server.
use ai_config_selector.Prelude.{false, Result, ok, err, refl, ◌≡◌, some, List, [], ◌∷◌, All, Any}
use ai_config_selector.Prelude.Bytes.{
  Bytes, codes, bytes_eq, bytes_lt, seen, has_prefix, contains_byte,
}
use ai_config_selector.Prelude.Order.{bytes_order}
use ai_config_selector.Prelude.Sort.{sort_by, insert_by}
use ai_config_selector.Text.{
  entry_id_matches, matches, all_bytes, valid_string, valid_from, next, lead,
}
use ai_config_selector.Intent.Environment
use ai_config_selector.Intent.Environment.{
  attached_process_tree, host_environment, secret_reference, non_secret, secret, valid_name,
  reserved_destination, has_any_prefix, refuses_non_secret, refuses_secret, check_source, admit,
}
use ai_config_selector.Intent.Schema
use ai_config_selector.Intent.Schema.{admit_all}
use ai_config_selector.Intent.Executables
use ai_config_selector.Intent.Paths
use ai_config_selector.Intent.Paths.{read_only, directory}
use ai_config_selector.Intent.Reference.{workspace_relative}
use ai_config_selector.Intent.Executables.{fixed_search_name}
use ai_config_selector.Intent.Mcp
use ai_config_selector.Intent.Mcp.{
  Server, Argument, McpError, argument_path, argument_env, transport_stdio, items, repeats_after,
  all_match, canonical_ids, valid_tool, tool_name_matches, canonical_tools, valid_arguments,
  item_count, canonical_server, canonical_servers, executable_selected, path_selected,
  environment_by_id, check_inputs, check_environment, check_argument, check_arguments,
  validate_references, undeclared_environment, duplicate_ref,
}
use ai_config_selector.Intent.Mcp.References.{validate_references-IsBound, IsBound}
use ai_config_selector.Intent.Mcp.Secrets.{environment_argument-non_secret}
use ai_config_selector.Intent.Mcp.Servers.{canonical_mcp-IsCanonicalSelection, IsCanonicalSelection}

abbrev given : Server
given = record {
  id = codes "files";
  transport = transport_stdio;
  executable_ref = codes "tool";
  arguments = some (
      record { kind = argument_path; ref = codes "docs" }
      ∷ record { kind = argument_env; ref = codes "lang" }
      ∷ []);
  input_refs = some (codes "docs" ∷ codes "data" ∷ []);
  environment_refs = some (codes "lang" ∷ []);
  disabled_tools = codes "write" ∷ codes "delete" ∷ [];
}

abbrev returned : Server
returned = record given {
  input_refs = some (codes "data" ∷ codes "docs" ∷ []);
  disabled_tools = codes "delete" ∷ codes "write" ∷ [];
}

abbrev path_entry : Bytes → Paths.Entry
path_entry id = record {
  id = id;
  access = read_only;
  type = directory;
  reference = record { kind = workspace_relative; path = id };
}

abbrev tool : Executables.Entry
tool = record {
  id = codes "tool";
  reference = record { kind = fixed_search_name; name = codes "tool"; path = [] };
}

abbrev variable : Bytes → Environment.Entry
variable classification = record {
  id = codes "lang";
  destination = codes "EDITOR";
  scope = attached_process_tree;
  source = record { kind = host_environment; name = codes "EDITOR"; provider = []; reference = [] };
  required = false;
  classification = classification;
}

run_mcp : List Server → Result McpError (List Server)
unfolding Mcp.canonical canonical_servers canonical_server canonical_ids canonical_tools
    valid_arguments item_count repeats_after all_match valid_tool tool_name_matches entry_id_matches
    matches all_bytes valid_string valid_from next lead contains_byte seen bytes_eq bytes_lt
    has_prefix insert_by sort_by
run_mcp ss = Mcp.canonical ss

run_references :
    List Server
    → List Executables.Entry
    → List Paths.Entry
    → List Environment.Entry
    → Result McpError (Unit {0})
unfolding validate_references executable_selected path_selected environment_by_id check_inputs
    check_environment check_argument check_arguments seen bytes_eq
run_references ss xs ps es = validate_references ss xs ps es

one_server : Mcp.canonical (given ∷ []) ≡ ok (returned ∷ [])
unfolding run_mcp
one_server = refl

repeated_input :
    Mcp.canonical (record given { input_refs = some (codes "docs" ∷ codes "docs" ∷ []) } ∷ [])
    ≡ err duplicate_ref
unfolding run_mcp
repeated_input = refl

abbrev paths : List Paths.Entry
paths = path_entry (codes "data") ∷ path_entry (codes "docs") ∷ []

bound : validate_references (returned ∷ []) (tool ∷ []) paths (variable non_secret ∷ []) ≡ ok tt
unfolding run_references
bound = refl

secret_refused :
    validate_references (returned ∷ []) (tool ∷ []) paths (variable secret ∷ [])
    ≡ err undeclared_environment
unfolding run_references
secret_refused = refl

run_environment :
    List Environment.Entry → Result Environment.EnvironmentError (List Environment.Entry)
unfolding Environment.canonical Schema.canonical admit_all entry_id_matches matches all_bytes seen
    bytes_eq bytes_lt has_prefix insert_by sort_by valid_name reserved_destination has_any_prefix
    refuses_non_secret refuses_secret check_source admit
run_environment es = Environment.canonical es

variable_selected : Environment.canonical (variable non_secret ∷ []) ≡ ok (variable non_secret ∷ [])
unfolding run_environment
variable_selected = refl

canonical_mcp-IsCanonicalSelection_example : IsCanonicalSelection (given ∷ []) (returned ∷ [])
canonical_mcp-IsCanonicalSelection_example =
    canonical_mcp-IsCanonicalSelection (given ∷ []) (returned ∷ []) one_server

validate_references-IsBound_example :
    All (IsBound (tool ∷ []) paths (variable non_secret ∷ [])) (returned ∷ [])
validate_references-IsBound_example =
    validate_references-IsBound (returned ∷ []) (tool ∷ []) paths (variable non_secret ∷ []) tt
      bound

environment_argument-non_secret_example :
    All
      (λ (s : Server).
        All
          (λ (a : Argument).
            a.kind ≡ argument_env
            → (e : Environment.Entry) → Any (λ x. x ≡ e) (variable non_secret ∷ [])
            → e.id ≡ a.ref
            → e.classification ≡ non_secret)
          (items s.arguments))
      (returned ∷ [])
environment_argument-non_secret_example =
    environment_argument-non_secret (variable non_secret ∷ []) (variable non_secret ∷ [])
      (returned ∷ []) (tool ∷ []) paths tt variable_selected bound
