-- ===== src/Intent/Environment.antt =====
-- internal/environmentintent/schema.go: the selection of environment references.
pub mod Laws
pub mod Canonical
use ai_config_selector.Prelude.{
  ℕ, Bool, true, false, ◌||◌, not, List, ◌∷◌, [], Result, ok, err, ◌>>=◌, ◌>>◌, refuse_if,
  if◌then◌else◌, ◌==◌,
}
use ai_config_selector.Prelude.Bytes.{Bytes, codes, bytes_eq, has_prefix, seen}
use ai_config_selector.Text.{matches, is_upper, is_digit, entry_id_matches}
use ai_config_selector.Intent.Schema.{Schema}
use ai_config_selector.Intent.Schema
use ai_config_selector.Intent.Reference.{maximum_entries}

pub data EnvironmentError : Type 0 where
  too_many_entries bad_id bad_destination bad_scope bad_non_secret bad_secret : EnvironmentError
  bad_classification : EnvironmentError

pub record Source : Type 0 where
  pub kind : Bytes
  pub name : Bytes
  pub provider : Bytes
  pub reference : Bytes

pub record Entry : Type 0 where
  pub id : Bytes
  pub destination : Bytes
  pub scope : Bytes
  pub source : Source
  pub required : Bool
  pub classification : Bytes

abbrev pub attached_process_tree : Bytes
attached_process_tree = codes "attached-process-tree"

-- Both a kind of source and a provider.
abbrev pub host_environment : Bytes
host_environment = codes "host-environment"

abbrev pub secret_reference : Bytes
secret_reference = codes "secret-reference"

abbrev pub non_secret : Bytes
non_secret = codes "non-secret"

abbrev pub secret : Bytes
secret = codes "secret"

-- `[A-Z_]`
abbrev pub first_of_name : ℕ → Bool
first_of_name c = is_upper c || c == b'_'

-- `[A-Z0-9_]`
abbrev pub rest_of_name : ℕ → Bool
rest_of_name c = first_of_name c || is_digit c

-- `^[A-Z_][A-Z0-9_]{0,127}$`
unfoldable pub valid_name : Bytes → Bool
valid_name = matches first_of_name rest_of_name 127

abbrev pub reserved_exact : List Bytes
reserved_exact =
    codes "HOME"
    ∷ codes "PATH"
    ∷ codes "PWD"
    ∷ codes "TMPDIR"
    ∷ codes "XDG_CONFIG_HOME"
    ∷ codes "XDG_DATA_HOME"
    ∷ codes "XDG_CACHE_HOME"
    ∷ codes "XDG_STATE_HOME"
    ∷ codes "TERM"
    ∷ codes "COLORTERM"
    ∷ codes "LANG"
    ∷ codes "LC_ALL"
    ∷ codes "LC_CTYPE"
    ∷ codes "BASH_ENV"
    ∷ codes "ENV"
    ∷ codes "ZDOTDIR"
    ∷ codes "SHELLOPTS"
    ∷ codes "BASHOPTS"
    ∷ codes "PROMPT_COMMAND"
    ∷ []

abbrev pub reserved_prefixes : List Bytes
reserved_prefixes = codes "ACS_" ∷ codes "DYLD_" ∷ codes "LD_" ∷ codes "LC_" ∷ []

unfoldable pub has_any_prefix : Bytes → List Bytes → Bool
has_any_prefix value [] = false
has_any_prefix value (p ∷ ps) = has_prefix value p || has_any_prefix value ps

unfoldable pub reserved_destination : Bytes → Bool
reserved_destination value = seen reserved_exact value || has_any_prefix value reserved_prefixes

unfoldable pub refuses_non_secret : Entry → Bool
refuses_non_secret e =
    not (bytes_eq e.source.kind host_environment)
    || (not (valid_name e.source.name)
        || (not (bytes_eq e.source.provider []) || not (bytes_eq e.source.reference [])))

unfoldable pub refuses_secret : Entry → Bool
refuses_secret e =
    not e.required
    || (not (bytes_eq e.source.kind secret_reference)
        || (not (bytes_eq e.source.name [])
            || (not (bytes_eq e.source.provider host_environment)
                || not (valid_name e.source.reference))))

-- The switch on the classification.
unfoldable pub check_source : Entry → Result EnvironmentError (Unit {0})
check_source e =
    if bytes_eq e.classification non_secret
    then refuse_if (refuses_non_secret e) bad_non_secret
    else if bytes_eq e.classification secret
    then refuse_if (refuses_secret e) bad_secret
    else err bad_classification

unfoldable pub admit : List Bytes → List Bytes → Entry → Result EnvironmentError Entry
admit ids destinations e = do
  refuse_if (not (entry_id_matches e.id) || seen ids e.id) bad_id
  refuse_if
      (not (valid_name e.destination)
        || (reserved_destination e.destination || seen destinations e.destination))
      bad_destination
  refuse_if (not (bytes_eq e.scope attached_process_tree)) bad_scope
  check_source e
  ok e

abbrev pub schema : Schema Entry EnvironmentError
schema = record {
  id = λ e. e.id;
  destination = λ e. e.destination;
  admit = admit;
  maximum = maximum_entries;
  too_many = too_many_entries;
}

unfoldable pub canonical : List Entry → Result EnvironmentError (List Entry)
canonical entries = Schema.canonical schema entries
