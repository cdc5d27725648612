-- ===== src/Authority/Encoding.antt =====
-- internal/authority/plan.go: canonicalFactEncoding and canonicalManifest, the bytes of which
-- AuthorityDigest is the SHA-256. The code appends to one slice, field by field; here each field is
-- followed by the encoding of what comes after it.
pub mod Splits
pub mod Lists
pub mod Sections
pub mod Injective
use ai_config_selector.Authority.Facts.{
  FactSource, SkillIdentity, McpArgumentReference, FactValue, Fact, Facts,
}
use ai_config_selector.Prelude.{
  ℕ, suc, ◌+◌, ◌-◌, ◌/◌, ◌%◌, ◌^◌, Bool, true, false, not, ◌||◌, if◌then◌else◌, Option, none, some,
  List, [], ◌∷◌, ◌++◌, length,
}
use ai_config_selector.Prelude.Bytes.{Bytes, codes}
use ai_config_selector.Prelude.Int.{ℤ, pos, negsuc}

-- binary.BigEndian.PutUint64
unfoldable pub put_uint : ℕ → Bytes
put_uint value =
    (value / 2 ^ 56 % 256)
    ∷ (value / 2 ^ 48 % 256)
    ∷ (value / 2 ^ 40 % 256)
    ∷ (value / 2 ^ 32 % 256)
    ∷ (value / 2 ^ 24 % 256)
    ∷ (value / 2 ^ 16 % 256)
    ∷ (value / 2 ^ 8 % 256)
    ∷ (value % 256)
    ∷ []

-- uint64(value) of an int: the two's complement.
unfoldable pub to_uint64 : ℤ → ℕ
to_uint64 (pos n) = n % 2 ^ 64
to_uint64 (negsuc n) = 2 ^ 64 - 1 - n % 2 ^ 64

unfoldable pub put_int : ℤ → Bytes
put_int value = put_uint (to_uint64 value)

unfoldable pub put_string : Bytes → Bytes
put_string value = put_uint (length value) ++ value

-- for _, value := range values { put(value) }
unfoldable pub put_each {ℓ} : {A : Type ℓ} → (A → Bytes) → List A → Bytes
put_each put [] = []
put_each put (value ∷ values) = put value ++ put_each put values

unfoldable pub put_list {ℓ} : {A : Type ℓ} → (A → Bytes) → List A → Bytes
put_list put values = put_uint (length values) ++ put_each put values

unfoldable pub put_identity : Option SkillIdentity → Bytes
put_identity none = put_uint 0
put_identity (some identity) =
    put_uint 1 ++ (put_string identity.source ++ put_string identity.relative_path)

unfoldable pub put_count : Option ℤ → Bytes
put_count none = put_uint 0
put_count (some count) = put_uint 1 ++ put_int count

abbrev pub put_bool : Bool → Bytes
put_bool true = put_uint 1
put_bool false = put_uint 0

unfoldable pub put_required : Option Bool → Bytes
put_required none = put_uint 0
put_required (some required) = put_uint 1 ++ put_bool required

unfoldable pub put_argument : McpArgumentReference → Bytes
put_argument argument = put_string argument.kind ++ put_string argument.reference

abbrev pub mcp_tag : Bytes
mcp_tag = codes "mcp-reference-fact-v1"

abbrev pub reference_tag : Bytes
reference_tag = codes "logical-reference-v1"

abbrev pub environment_tag : Bytes
environment_tag = codes "environment-fact-v1"

-- value != ""
abbrev pub non_empty : Bytes → Bool
non_empty [] = false
non_empty (b ∷ bs) = true

abbrev pub is_some {ℓ} : {A : Type ℓ} → Option A → Bool
is_some none = false
is_some (some a) = true

abbrev pub put_if : Bool → Bytes → Bytes
put_if present encoded = if present then encoded else []

unfoldable pub mcp_fields : FactValue → Bytes
mcp_fields value =
    put_list put_argument value.mcp_arguments
    ++ (put_list put_string value.mcp_environment_references
        ++ put_list put_string value.mcp_disabled_tools)

unfoldable pub environment_fields : FactValue → Bytes
environment_fields value =
    put_string value.destination
    ++ (put_string value.scope
        ++ (put_string value.source_kind
            ++ (put_string value.provider
                ++ (put_string value.classification ++ put_required value.required))))

abbrev pub has_environment : FactValue → Bool
has_environment value =
    non_empty value.destination
    || (non_empty value.scope
        || (non_empty value.source_kind
            || (non_empty value.provider
                || (non_empty value.classification || is_some value.required))))

-- The three sections that are written only where a fact has them.
unfoldable pub environment_section : FactValue → Bytes
environment_section value =
    put_if (has_environment value) (put_string environment_tag ++ environment_fields value)

unfoldable pub reference_section : FactValue → Bytes
reference_section value =
    put_if (non_empty value.logical_reference)
      (put_string reference_tag ++ put_string value.logical_reference)

unfoldable pub mcp_section : FactValue → Bytes
mcp_section value = put_if value.mcp_present (put_string mcp_tag ++ mcp_fields value)

unfoldable pub fact_sections : FactValue → Bytes
fact_sections value = mcp_section value ++ (reference_section value ++ environment_section value)

unfoldable pub value_encoding : FactValue → Bytes
value_encoding value =
    put_string value.access
    ++ (put_string value.mode
        ++ (put_string value.logical_location
            ++ (put_string value.requirement_id
                ++ (put_identity value.identity
                    ++ (put_count value.count
                        ++ (put_list put_string value.names ++ fact_sections value))))))

unfoldable pub canonical_fact_encoding : Fact → Bytes
canonical_fact_encoding fact =
    put_string fact.id
    ++ (put_string fact.kind
        ++ (put_string fact.reason
            ++ (put_string fact.source.kind
                ++ (put_string fact.source.id
                    ++ (put_int fact.source.version ++ value_encoding fact.value)))))

-- putUint of the length of the encoded fact, and then its bytes
unfoldable pub put_fact : Fact → Bytes
put_fact fact = put_string (canonical_fact_encoding fact)

abbrev pub manifest_tag : Bytes
manifest_tag = codes "acs-semantic-authority-manifest"

abbrev pub authority_manifest_version : ℤ
authority_manifest_version = pos 1

unfoldable pub canonical_manifest : ℤ → Bytes → Bytes → Facts → Bytes
canonical_manifest source_version overlay recipe facts =
    manifest_tag
    ++ (put_int authority_manifest_version
        ++ (put_int source_version
            ++ (put_string overlay
                ++ (put_string recipe
                    ++ (put_list put_fact facts.requested
                        ++ (put_list put_fact facts.target_added
                            ++ (put_list put_fact facts.effective
                                ++ put_list put_fact facts.unsupported)))))))
