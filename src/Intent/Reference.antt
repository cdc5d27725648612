-- ===== src/Intent/Reference.antt =====
-- The path references of pathintent, exclusionintent and executableintent: the tests on the text of
-- a reference and its canonical form, which the three packages write out in the same way.
pub mod Settled
pub mod Inside
pub mod Laws
use ai_config_selector.Prelude.{
  ℕ, Bool, true, false, ◌&&◌, ◌||◌, not, List, [], ◌∷◌, leb, ltb, ◌==◌, if◌then◌else◌, length,
  Result, ok, err, ◌>>◌, ◌>>=◌, refuse_if,
}
use ai_config_selector.Prelude.Bytes.{Bytes, codes, bytes_eq, contains_byte}
use ai_config_selector.GoPath.{slash, dot, split, is_abs, clean}
use ai_config_selector.GoPath.Names.{escapes}
use ai_config_selector.Text.{valid_string}

abbrev pub maximum_entries : ℕ
maximum_entries = 128

abbrev pub maximum_path_bytes : ℕ
maximum_path_bytes = 1024

abbrev pub maximum_components : ℕ
maximum_components = 128

abbrev pub backslash : ℕ
backslash = 0x5C

abbrev pub workspace_relative : Bytes
workspace_relative = codes "workspace-relative"

abbrev pub local_absolute : Bytes
local_absolute = codes "local-absolute"

-- The text is not empty, not too long, valid UTF-8 and free of NUL.
unfoldable pub valid_path : Bytes → Bool
valid_path value =
    not (bytes_eq value [])
    && (leb (length value) maximum_path_bytes
        && (valid_string value && not (contains_byte 0 value)))

-- strings.TrimPrefix(s, "/")
unfoldable pub trim_root : Bytes → Bytes
trim_root [] = []
trim_root (c ∷ cs) = if c == slash then cs else c ∷ cs

module _ {ℓ} {Err : Type ℓ} where
  -- The tail of the workspace-relative case.
  unfoldable pub clean_relative : Err → Bytes → Result Err Bytes
  clean_relative escaping p = do
    let cleaned = clean p
    refuse_if
        (bytes_eq cleaned dot
          || (escapes cleaned || ltb maximum_components (length (split slash cleaned))))
        escaping
    ok cleaned

  -- The tail of the local-absolute case.
  unfoldable pub clean_absolute : Err → Bytes → Result Err Bytes
  clean_absolute root p = do
    let cleaned = clean p
    refuse_if
        (bytes_eq cleaned (slash ∷ [])
          || ltb maximum_components (length (split slash (trim_root cleaned))))
        root
    ok cleaned

pub data ReferenceError : Type 0 where
  bad_path bad_form escaping not_absolute bad_root bad_kind : ReferenceError

pub record Reference : Type 0 where
  pub kind : Bytes
  pub path : Bytes

unfoldable pub relative_case : Bytes → Result ReferenceError Bytes
relative_case p = do
  refuse_if (is_abs p || contains_byte backslash p) bad_form
  clean_relative escaping p

unfoldable pub absolute_case : Bytes → Result ReferenceError Bytes
absolute_case p = do refuse_if (not (is_abs p)) not_absolute; clean_absolute bad_root p

-- The switch on the kind of a reference in pathintent and exclusionintent.
unfoldable pub anchor : Bytes → Bytes → Result ReferenceError Bytes
anchor kind p =
    if bytes_eq kind workspace_relative
    then relative_case p
    else if bytes_eq kind local_absolute
    then absolute_case p
    else err bad_kind

unfoldable pub validate_reference : Reference → Result ReferenceError Reference
validate_reference r = do
  refuse_if (not (valid_path r.path)) bad_path
  p ← anchor r.kind r.path
  ok (record r { path = p })
