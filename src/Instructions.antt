-- ===== src/Instructions.antt =====
-- internal/instructions/model.go: the selection of instruction files. The case folding and the
-- normal form of golang.org/x/text are one argument `fold` of the definitions.
pub mod Selection
use mathlib.Core.List.{reverse}
use ai_config_selector.Prelude.{
  ℕ, Bool, true, false, not, ◌&&◌, ◌||◌, ◌==◌, ltb, List, [], ◌∷◌, ◌++◌, Result, ok, err, ◌>>=◌,
  ◌>>◌, refuse_if, length,
}
use ai_config_selector.Prelude.Bytes.{Bytes, codes, bytes_eq, has_prefix, contains_byte, seen}
use ai_config_selector.GoPath.{slash, dot, dotdot, split, clean}
use ai_config_selector.Text.{valid_string, between}

abbrev pub source_id : Bytes
source_id = codes "acs-instructions"

abbrev pub max_entries : ℕ
max_entries = 64

abbrev pub max_path_bytes : ℕ
max_path_bytes = 1024

abbrev pub max_depth : ℕ
max_depth = 16

pub record Reference : Type 0 where
  pub source : Bytes
  pub relative_path : Bytes

pub data InstructionError : Type 0 where
  too_many_entries unsupported_source invalid_path too_deep bad_component : InstructionError
  control_text bad_extension not_canonical duplicate collision directory_collision :
      InstructionError

abbrev byte_order_mark : Bytes
byte_order_mark = 0xEF ∷ 0xBB ∷ 0xBF ∷ []

-- unicode.IsControl of some code point of a UTF-8 text: U+0000 to U+001F and U+007F to U+009F.
unfoldable pub has_control : Bytes → Bool
has_control [] = false
has_control (b ∷ []) = ltb b 0x20 || b == 0x7F
has_control (b ∷ c ∷ bs) =
    (ltb b 0x20 || (b == 0x7F || (b == 0xC2 && between 0x80 0x9F c))) || has_control (c ∷ bs)

abbrev pub unusable : Bytes → Bool
unusable p = bytes_eq p [] || (bytes_eq p dot || (bytes_eq p dotdot || has_prefix p dot))

unfoldable pub check_parts : List Bytes → Result InstructionError (Unit {0})
check_parts [] = ok tt
check_parts (p ∷ ps) =
    refuse_if (unusable p) bad_component
    >> (refuse_if (has_control p) control_text >> check_parts ps)

-- strings.HasSuffix(value, ".md")
unfoldable pub is_markdown : Bytes → Bool
is_markdown value = has_prefix (reverse value) (codes "dm.")

unfoldable pub invalid : Bytes → Bool
invalid value =
    bytes_eq value []
    || (ltb max_path_bytes (length value)
        || (not (valid_string value)
            || (contains_byte b'\\' value
                || (has_prefix value (slash ∷ []) || has_prefix value byte_order_mark))))

-- The function clean.
unfoldable pub clean_instruction : Bytes → Result InstructionError Bytes
clean_instruction value =
    refuse_if (invalid value) invalid_path
    >> (refuse_if (ltb max_depth (length (split slash value))) too_deep
        >> (check_parts (split slash value)
            >> (refuse_if (not (is_markdown value)) bad_extension >> ok (clean value))))

unfoldable pub seen_reference : List Reference → Reference → Bool
seen_reference [] r = false
seen_reference (x ∷ xs) r =
    (bytes_eq x.source r.source && bytes_eq x.relative_path r.relative_path) || seen_reference xs r

-- right begins with left + "/"
unfoldable pub below_any : List Bytes → Bytes → Bool
below_any [] right = false
below_any (left ∷ lefts) right = has_prefix right (left ++ (slash ∷ [])) || below_any lefts right

-- The two loops over the paths; no path begins with itself and a slash, so that `i != j` need not be
-- tested.
unfoldable pub any_below : List Bytes → List Bytes → Bool
any_below lefts [] = false
any_below lefts (right ∷ rights) = below_any lefts right || any_below lefts rights

module _ (fold : Bytes → Bytes) where
  -- The first loop, which returns `paths`.
  unfoldable pub destination_keys :
      List Reference → List Bytes → List Reference → Result InstructionError (List Bytes)
  destination_keys refs keys [] = ok []
  destination_keys refs keys (r ∷ rs) =
      refuse_if (not (bytes_eq r.source source_id)) unsupported_source
      >> (clean_instruction r.relative_path >>= (λ p.
          refuse_if (not (bytes_eq p r.relative_path)) not_canonical
          >> (refuse_if (seen_reference refs r) duplicate
              >> (refuse_if (seen keys (fold p)) collision
                  >> (destination_keys (r ∷ refs) (fold p ∷ keys) rs
                      >>= (λ paths. ok (fold p ∷ paths)))))))

  unfoldable pub validate_selection : List Reference → Result InstructionError (Unit {0})
  validate_selection refs =
      refuse_if (ltb max_entries (length refs)) too_many_entries
      >> (destination_keys [] [] refs
          >>= (λ paths. refuse_if (any_below paths paths) directory_collision))
