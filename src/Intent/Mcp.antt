-- ===== src/Intent/Mcp.antt =====
-- internal/mcpintent/schema.go: the selection of MCP servers, and the references of a server to the
-- other selections.
pub mod References
pub mod Secrets
pub mod Canonical
pub mod Servers
use ai_config_selector.Prelude.{
  ℕ, ◌+◌, Bool, true, false, not, ◌&&◌, ◌||◌, Option, none, some, List, [], ◌∷◌, Result, ok, err,
  ◌>>=◌, ◌>>◌, refuse_if, if◌then◌else◌, ltb, length, ◌==◌,
}
use ai_config_selector.Prelude.Bytes.{Bytes, codes, bytes_eq, seen, contains_byte}
use ai_config_selector.Prelude.Order.{bytes_order}
use ai_config_selector.Prelude.Sort.{sort_by}
use ai_config_selector.Text.{
  entry_id_matches, matches, valid_string, is_lower, is_upper, is_digit, is_mark,
}
use ai_config_selector.Intent.Environment
use ai_config_selector.Intent.Environment.{non_secret}
use ai_config_selector.Intent.Executables
use ai_config_selector.Intent.Paths

abbrev maximum_servers : ℕ
maximum_servers = 64

abbrev maximum_arguments_per_server : ℕ
maximum_arguments_per_server = 128

abbrev maximum_inputs_per_server : ℕ
maximum_inputs_per_server = 64

abbrev maximum_environment_refs : ℕ
maximum_environment_refs = 128

abbrev maximum_disabled_tools : ℕ
maximum_disabled_tools = 256

abbrev maximum_aggregate_items : ℕ
maximum_aggregate_items = 4096

abbrev pub transport_stdio : Bytes
transport_stdio = codes "stdio"

abbrev pub argument_path : Bytes
argument_path = codes "path"

abbrev pub argument_env : Bytes
argument_env = codes "environment"

pub record Argument : Type 0 where
  pub kind : Bytes
  pub ref : Bytes

-- A list that is `none` is nil in Go. The disabled tools are one list, since nil and the empty list
-- are not told apart.
pub record Server : Type 0 where
  pub id : Bytes
  pub transport : Bytes
  pub executable_ref : Bytes
  pub arguments : Option (List Argument)
  pub input_refs : Option (List Bytes)
  pub environment_refs : Option (List Bytes)
  pub disabled_tools : List Bytes

pub data McpError : Type 0 where
  too_many_servers bad_server_id bad_transport bad_executable_ref bad_lists too_many_tools :
      McpError
  too_many_items bad_argument long_list bad_ref duplicate_ref bad_tool duplicate_tool : McpError
  unselected_executable unselected_input unselected_environment : McpError
  undeclared_path undeclared_environment : McpError

-- `[A-Za-z0-9._:/-]`
abbrev is_tool_byte : ℕ → Bool
is_tool_byte c =
    (c == b':' || c == b'/') || (is_lower c || (is_upper c || (is_digit c || is_mark c)))

-- `^[A-Za-z0-9][A-Za-z0-9._:/-]{0,127}$`
unfoldable pub tool_name_matches : Bytes → Bool
tool_name_matches = matches (λ c. is_lower c || (is_upper c || is_digit c)) is_tool_byte 127

-- `range list`, which is empty for nil.
abbrev pub items {ℓ} : {A : Type ℓ} → Option (List A) → List A
items none = []
items (some xs) = xs

abbrev pub absent_or_longer {ℓ} : {A : Type ℓ} → Option (List A) → ℕ → Bool
absent_or_longer none limit = true
absent_or_longer (some xs) limit = ltb limit (length xs)

-- result[index] == result[index-1], for some index.
unfoldable pub repeats_after : Option Bytes → List Bytes → Bool
repeats_after previous [] = false
repeats_after none (x ∷ xs) = repeats_after (some x) xs
repeats_after (some p) (x ∷ xs) = bytes_eq x p || repeats_after (some x) xs

unfoldable pub all_match : (Bytes → Bool) → List Bytes → Bool
all_match p [] = true
all_match p (x ∷ xs) = p x && all_match p xs

abbrev pub sort_strings : List Bytes → List Bytes
sort_strings xs = sort_by (λ (x : Bytes). x) xs

unfoldable pub canonical_ids : List Bytes → ℕ → Result McpError (List Bytes)
canonical_ids values limit = do
  refuse_if (ltb limit (length values)) long_list
  refuse_if (not (all_match entry_id_matches values)) bad_ref
  let result = sort_strings values
  refuse_if (repeats_after none result) duplicate_ref
  ok result

unfoldable pub valid_tool : Bytes → Bool
valid_tool name = valid_string name && (tool_name_matches name && not (contains_byte 0 name))

unfoldable pub canonical_tools : List Bytes → Result McpError (List Bytes)
canonical_tools names = do
  refuse_if (not (all_match valid_tool names)) bad_tool
  let result = sort_strings names
  refuse_if (repeats_after none result) duplicate_tool
  ok result

unfoldable pub valid_arguments : List Argument → Bool
valid_arguments [] = true
valid_arguments (a ∷ rest) =
    ((bytes_eq a.kind argument_path || bytes_eq a.kind argument_env) && entry_id_matches a.ref)
    && valid_arguments rest

unfoldable pub item_count : Server → ℕ
item_count s =
    length (items s.arguments)
    + (length (items s.input_refs) + (length (items s.environment_refs) + length s.disabled_tools))

-- The loop's body behind the test of the identifier; `aggregate` is the count with this server.
unfoldable pub canonical_server : ℕ → Server → Result McpError Server
canonical_server aggregate s = do
  refuse_if (not (bytes_eq s.transport transport_stdio)) bad_transport
  refuse_if (not (entry_id_matches s.executable_ref)) bad_executable_ref
  refuse_if
      (absent_or_longer s.arguments maximum_arguments_per_server
        || (absent_or_longer s.input_refs maximum_inputs_per_server
            || absent_or_longer s.environment_refs maximum_environment_refs))
      bad_lists
  refuse_if (ltb maximum_disabled_tools (length s.disabled_tools)) too_many_tools
  refuse_if (ltb maximum_aggregate_items aggregate) too_many_items
  refuse_if (not (valid_arguments (items s.arguments))) bad_argument
  inputs ← canonical_ids (items s.input_refs) maximum_inputs_per_server
  environment ← canonical_ids (items s.environment_refs) maximum_environment_refs
  tools ← canonical_tools s.disabled_tools
  ok (record s {
    input_refs = some inputs;
    environment_refs = some environment;
    disabled_tools = tools;
  })

unfoldable pub canonical_servers : List Bytes → ℕ → List Server → Result McpError (List Server)
canonical_servers ids aggregate [] = ok []
canonical_servers ids aggregate (s ∷ ss) = do
  refuse_if (not (entry_id_matches s.id) || seen ids s.id) bad_server_id
  server ← canonical_server (aggregate + item_count s) s
  rest ← canonical_servers (s.id ∷ ids) (aggregate + item_count s) ss
  ok (server ∷ rest)

unfoldable pub canonical : List Server → Result McpError (List Server)
canonical servers = do
  refuse_if (ltb maximum_servers (length servers)) too_many_servers
  result ← canonical_servers [] 0 servers
  ok (sort_by (λ (s : Server). s.id) result)

-- executableIDs[id] and pathIDs[id]
unfoldable pub executable_selected : List Executables.Entry → Bytes → Bool
executable_selected [] id = false
executable_selected (e ∷ es) id = bytes_eq e.id id || executable_selected es id

unfoldable pub path_selected : List Paths.Entry → Bytes → Bool
path_selected [] id = false
path_selected (e ∷ es) id = bytes_eq e.id id || path_selected es id

abbrev pub or_else : Option Environment.Entry → Option Environment.Entry → Option Environment.Entry
or_else none other = other
or_else (some e) other = some e

-- environmentByID[id]: of several entries with the identifier the last one.
unfoldable pub environment_by_id : List Environment.Entry → Bytes → Option Environment.Entry
environment_by_id [] id = none
environment_by_id (e ∷ es) id =
    or_else (environment_by_id es id) (if bytes_eq e.id id then some e else none)

abbrev is_none {ℓ} : {A : Type ℓ} → Option A → Bool
is_none none = true
is_none (some a) = false

unfoldable pub check_inputs : List Paths.Entry → List Bytes → Result McpError (Unit {0})
check_inputs paths [] = ok tt
check_inputs paths (id ∷ ids) =
    refuse_if (not (path_selected paths id)) unselected_input >> check_inputs paths ids

unfoldable pub check_environment : List Environment.Entry → List Bytes → Result McpError (Unit {0})
check_environment environment [] = ok tt
check_environment environment (id ∷ ids) =
    refuse_if (is_none (environment_by_id environment id)) unselected_environment
    >> check_environment environment ids

abbrev pub secret_or_absent : Option Environment.Entry → Bool
secret_or_absent none = true
secret_or_absent (some e) = not (bytes_eq e.classification non_secret)

unfoldable pub check_argument :
    List Paths.Entry → List Environment.Entry → Server → Argument → Result McpError (Unit {0})
check_argument paths environment s a =
    if bytes_eq a.kind argument_path
    then refuse_if (not (path_selected paths a.ref) || not (seen (items s.input_refs) a.ref))
        undeclared_path
    else if bytes_eq a.kind argument_env
    then refuse_if
        (secret_or_absent (environment_by_id environment a.ref)
          || not (seen (items s.environment_refs) a.ref))
        undeclared_environment
    else ok tt

unfoldable pub check_arguments :
    List Paths.Entry → List Environment.Entry → Server → List Argument → Result McpError (Unit {0})
check_arguments paths environment s [] = ok tt
check_arguments paths environment s (a ∷ rest) =
    check_argument paths environment s a >> check_arguments paths environment s rest

unfoldable pub validate_references :
    List Server
    → List Executables.Entry
    → List Paths.Entry
    → List Environment.Entry
    → Result McpError (Unit {0})
validate_references [] executables paths environment = ok tt
validate_references (s ∷ ss) executables paths environment = do
  refuse_if (not (executable_selected executables s.executable_ref)) unselected_executable
  check_inputs paths (items s.input_refs)
  check_environment environment (items s.environment_refs)
  check_arguments paths environment s (items s.arguments)
  validate_references ss executables paths environment
