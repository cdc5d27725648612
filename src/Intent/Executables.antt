-- ===== src/Intent/Executables.antt =====
-- internal/executableintent/schema.go: the selection of executables.
pub mod Laws
pub mod Canonical
use ai_config_selector.Prelude.{
  ℕ, Bool, ◌||◌, not, List, ◌++◌, ◌∷◌, [], Result, ok, err, ◌>>=◌, ◌>>◌, refuse_if, if◌then◌else◌,
  ◌==◌,
}
use ai_config_selector.Prelude.Bytes.{Bytes, codes, bytes_eq, contains_byte}
use ai_config_selector.GoPath.{is_abs, dot, dotdot}
use ai_config_selector.Text.{matches, is_lower, is_upper, is_digit, is_mark, valid_string}
use ai_config_selector.Intent.Schema.{Schema}
use ai_config_selector.Intent.Schema
use ai_config_selector.Intent.Schema.Checked.{checked_schema}
use ai_config_selector.Intent.Reference.{
  valid_path, clean_relative, clean_absolute, maximum_entries, backslash, workspace_relative,
  local_absolute,
}

pub data ExecutableError : Type 0 where
  too_many_entries bad_id bad_search_name bad_relative escaping not_absolute bad_root :
      ExecutableError
  bad_kind duplicate_destination : ExecutableError

pub record Reference : Type 0 where
  pub kind : Bytes
  pub name : Bytes
  pub path : Bytes

pub record Entry : Type 0 where
  pub id : Bytes
  pub reference : Reference

abbrev pub fixed_search_name : Bytes
fixed_search_name = codes "fixed-search-name"

-- `[A-Za-z0-9]`
abbrev pub first_of_name : ℕ → Bool
first_of_name c = is_upper c || (is_lower c || is_digit c)

-- `[A-Za-z0-9._+-]`
abbrev pub rest_of_name : ℕ → Bool
rest_of_name c = first_of_name c || (is_mark c || c == b'+')

-- `^[A-Za-z0-9][A-Za-z0-9._+-]{0,254}$`
unfoldable pub search_name_matches : Bytes → Bool
search_name_matches = matches first_of_name rest_of_name 254

-- The case of a name that is searched for on the fixed search path.
unfoldable pub refuses_search_name : Reference → Bool
refuses_search_name r =
    not (bytes_eq r.path [])
    || (not (valid_string r.name)
        || (not (search_name_matches r.name) || (bytes_eq r.name dot || bytes_eq r.name dotdot)))

unfoldable pub refuses_relative : Reference → Bool
refuses_relative r =
    not (bytes_eq r.name [])
    || (not (valid_path r.path) || (is_abs r.path || contains_byte backslash r.path))

unfoldable pub refuses_absolute : Reference → Bool
refuses_absolute r = not (bytes_eq r.name []) || (not (valid_path r.path) || not (is_abs r.path))

unfoldable pub search_case : Reference → Result ExecutableError Reference
search_case r = do refuse_if (refuses_search_name r) bad_search_name; ok r

unfoldable pub relative_case : Reference → Result ExecutableError Reference
relative_case r = do
  refuse_if (refuses_relative r) bad_relative
  p ← clean_relative escaping r.path
  ok (record r { path = p })

unfoldable pub absolute_case : Reference → Result ExecutableError Reference
absolute_case r = do
  refuse_if (refuses_absolute r) not_absolute
  p ← clean_absolute bad_root r.path
  ok (record r { path = p })

unfoldable pub validate_reference : Reference → Result ExecutableError Reference
validate_reference r =
    if bytes_eq r.kind fixed_search_name
    then search_case r
    else if bytes_eq r.kind workspace_relative
    then relative_case r
    else if bytes_eq r.kind local_absolute
    then absolute_case r
    else err bad_kind

unfoldable pub validate : Entry → Result ExecutableError Entry
validate e = do r ← validate_reference e.reference; ok (record e { reference = r })

-- entry.Reference.Kind + "\x00" + entry.Reference.Name + "\x00" + entry.Reference.Path
unfoldable pub destination : Entry → Bytes
destination e = e.reference.kind ++ (0 ∷ (e.reference.name ++ (0 ∷ e.reference.path)))

abbrev pub schema : Schema Entry ExecutableError
schema =
    checked_schema (λ e. e.id) destination validate bad_id duplicate_destination maximum_entries
      too_many_entries

unfoldable pub canonical : List Entry → Result ExecutableError (List Entry)
canonical entries = Schema.canonical schema entries
