-- ===== src/Intent/Paths.antt =====
-- internal/pathintent/schema.go: the selection of filesystem paths.
pub mod Laws
pub mod Canonical
use ai_config_selector.Prelude.{
  Bool, ◌||◌, not, List, ◌++◌, ◌∷◌, [], Result, ok, ◌>>=◌, ◌>>◌, refuse_if, map_err,
}
use ai_config_selector.Prelude.Bytes.{Bytes, codes, bytes_eq}
use ai_config_selector.Intent.Schema.{Schema}
use ai_config_selector.Intent.Schema
use ai_config_selector.Intent.Schema.Checked.{checked_schema}
use ai_config_selector.Intent.Reference.{
  Reference, ReferenceError, validate_reference, maximum_entries,
}

pub data PathError : Type 0 where
  too_many_entries bad_id bad_access bad_type duplicate_destination : PathError
  bad_reference : ReferenceError → PathError

pub record Entry : Type 0 where
  pub id : Bytes
  pub access : Bytes
  pub type : Bytes
  pub reference : Reference

abbrev pub read_only : Bytes
read_only = codes "read-only"

abbrev pub read_write : Bytes
read_write = codes "read-write"

abbrev pub file : Bytes
file = codes "file"

abbrev pub directory : Bytes
directory = codes "directory"

unfoldable pub validate : Entry → Result PathError Entry
validate e = do
  refuse_if (not (bytes_eq e.access read_only || bytes_eq e.access read_write)) bad_access
  refuse_if (not (bytes_eq e.type file || bytes_eq e.type directory)) bad_type
  r ← map_err bad_reference (validate_reference e.reference)
  ok (record e { reference = r })

-- entry.Reference.Kind + "\x00" + entry.Reference.Path
unfoldable pub destination : Entry → Bytes
destination e = e.reference.kind ++ (0 ∷ e.reference.path)

abbrev pub schema : Schema Entry PathError
schema =
    checked_schema (λ e. e.id) destination validate bad_id duplicate_destination maximum_entries
      too_many_entries

unfoldable pub canonical : List Entry → Result PathError (List Entry)
canonical entries = Schema.canonical schema entries
