-- ===== src/Intent/Exclusions.antt =====
-- internal/exclusionintent/schema.go: the selection of paths that are denied.
pub mod Laws
pub mod Canonical
use ai_config_selector.Prelude.{
  Bool, ◌||◌, not, List, ◌++◌, ◌∷◌, [], Result, ok, ◌>>=◌, ◌>>◌, refuse_if, map_err,
}
use ai_config_selector.Prelude.Bytes.{Bytes, codes, bytes_eq}
use ai_config_selector.Intent.Schema.{Schema}
use ai_config_selector.Intent.Schema
use ai_config_selector.Intent.Schema.Checked.{checked_schema}
use ai_config_selector.Intent.Reference.{
  Reference, ReferenceError, validate_reference, maximum_entries,
}

pub data ExclusionError : Type 0 where
  too_many_entries bad_id bad_type duplicate_destination : ExclusionError
  bad_reference : ReferenceError → ExclusionError

pub record Entry : Type 0 where
  pub id : Bytes
  pub type : Bytes
  pub reference : Reference

abbrev pub file : Bytes
file = codes "file"

abbrev pub directory : Bytes
directory = codes "directory"

unfoldable pub validate : Entry → Result ExclusionError Entry
validate e = do
  refuse_if (not (bytes_eq e.type file || bytes_eq e.type directory)) bad_type
  r ← map_err bad_reference (validate_reference e.reference)
  ok (record e { reference = r })

-- entry.Reference.Kind + "\x00" + entry.Reference.Path
unfoldable pub destination : Entry → Bytes
destination e = e.reference.kind ++ (0 ∷ e.reference.path)

abbrev pub schema : Schema Entry ExclusionError
schema =
    checked_schema (λ e. e.id) destination validate bad_id duplicate_destination maximum_entries
      too_many_entries

unfoldable pub canonical : List Entry → Result ExclusionError (List Entry)
canonical entries = Schema.canonical schema entries
