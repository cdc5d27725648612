-- ===== src/Authority/Encoding/Injective.antt =====
-- internal/authority/plan.go: the bytes that AuthorityDigest hashes determine the facts.
use ai_config_selector.Authority.Encoding.{
  put_int, put_uint, put_string, put_identity, put_count, put_list, fact_sections, value_encoding,
  canonical_fact_encoding, put_fact, manifest_tag, authority_manifest_version, canonical_manifest,
}
use ai_config_selector.Authority.Encoding.Splits.{
  Small, IsInt, OptionIs, Splits, put_int-Splits, put_string-Splits, put_identity-Splits,
  put_count-Splits, pair-Splits,
}
use ai_config_selector.Authority.Encoding.Lists.{
  texts-Splits, IsMarked, put_string-IsMarked, put_list-Splits,
}
use ai_config_selector.Authority.Encoding.Sections.{HidesNothing, SameSections, fact_sections-eq}
use ai_config_selector.Authority.Facts.{SkillIdentity, FactValue, Fact, Facts}
use ai_config_selector.Prelude.{◌≡◌, ap, Option, List, [], ◌++◌, All, length-append, arith}
use ai_config_selector.Prelude.Bytes.{Bytes}
use ai_config_selector.Prelude.Int.{ℤ}
use mathlib.Core.List.{append_assoc, append-nil, append_cancel_left}

-- What the Go types and the builders of facts give: 64-bit integers, and the lists of an MCP server only with
-- MCPPresent.
pub record IsValue (v : FactValue) : Type 0 where
  pub count : OptionIs IsInt v.count
  pub hides_nothing : HidesNothing v

pub record IsFact (f : Fact) : Type 0 where
  pub version : IsInt f.source.version
  pub value : IsValue f.value

abbrev ValueFields : Type 0
ValueFields = Bytes × (Bytes × (Bytes × (Bytes × (Option SkillIdentity × (Option ℤ × List Bytes)))))

abbrev fields_of : FactValue → ValueFields
fields_of v =
    (v.access, (v.mode, (v.logical_location, (v.requirement_id, (v.identity, (v.count, v.names))))))

-- The fields that every fact has.
value_prefix : FactValue → Bytes
value_prefix v =
    put_string v.access
    ++ (put_string v.mode
        ++ (put_string v.logical_location
            ++ (put_string v.requirement_id
                ++ (put_identity v.identity
                    ++ (put_count v.count ++ put_list put_string v.names)))))

value_encoding-prefix : (v : FactValue) → value_encoding v ≡ value_prefix v ++ fact_sections v
unfolding value_encoding value_prefix
value_encoding-prefix v = simp append_assoc

value_prefix-eq :
    (v w : FactValue) (r s : Bytes)
    → IsValue v
    → IsValue w
    → Small (value_prefix v ++ r)
    → value_prefix v ++ r ≡ value_prefix w ++ s
    → (fields_of v ≡ fields_of w) × (r ≡ s) × Small r
unfolding value_prefix
value_prefix-eq v w r s p q small e =
    let text = put_string-Splits in
    let one = pair-Splits put_count (put_list put_string) put_count-Splits texts-Splits in
    let two = pair-Splits put_identity _ put_identity-Splits one in
    let three = pair-Splits put_string _ text two in
    let four = pair-Splits put_string _ text three in
    let five = pair-Splits put_string _ text four in
    let six = pair-Splits put_string _ text five in
    six (fields_of v) (fields_of w) r s (tt, (tt, (tt, (tt, (tt, (p.count, tt))))))
      (tt, (tt, (tt, (tt, (tt, (q.count, tt)))))) small e

value_eq : (v w : FactValue) → fields_of v ≡ fields_of w → SameSections v w → v ≡ w
value_eq v w same sections = cc (
  same, sections.present, sections.reference, sections.mcp.arguments,
  sections.mcp.environment_references, sections.mcp.disabled_tools,
  sections.environment.destination, sections.environment.scope, sections.environment.source_kind,
  sections.environment.provider, sections.environment.classification, sections.environment.required,
)

value_encoding-injective :
    (v w : FactValue)
    → IsValue v
    → IsValue w
    → Small (value_encoding v)
    → value_encoding v ≡ value_encoding w
    → v ≡ w
value_encoding-injective v w p q small e =
    let (same, rest, small') =
      value_prefix-eq v w (fact_sections v) (fact_sections w) p q
        (rw (← value_encoding-prefix v) small)
        (rw (← value_encoding-prefix v, ← value_encoding-prefix w) e) in
    value_eq v w same (fact_sections-eq v w p.hides_nothing q.hides_nothing small' rest)

abbrev HeaderFields : Type 0
HeaderFields = Bytes × (Bytes × (Bytes × (Bytes × (Bytes × ℤ))))

abbrev header_of : Fact → HeaderFields
header_of f = (f.id, (f.kind, (f.reason, (f.source.kind, (f.source.id, f.source.version)))))

fact_header : Fact → Bytes
fact_header f =
    put_string f.id
    ++ (put_string f.kind
        ++ (put_string f.reason
            ++ (put_string f.source.kind ++ (put_string f.source.id ++ put_int f.source.version))))

fact_encoding-header :
    (f : Fact) → canonical_fact_encoding f ≡ fact_header f ++ value_encoding f.value
unfolding canonical_fact_encoding fact_header
fact_encoding-header f = simp append_assoc

fact_header-eq :
    (f g : Fact) (r s : Bytes)
    → IsFact f
    → IsFact g
    → Small (fact_header f ++ r)
    → fact_header f ++ r ≡ fact_header g ++ s
    → (header_of f ≡ header_of g) × (r ≡ s) × Small r
unfolding fact_header
fact_header-eq f g r s p q small e =
    let text = put_string-Splits in
    let one = pair-Splits put_string put_int text put_int-Splits in
    let two = pair-Splits put_string _ text one in
    let three = pair-Splits put_string _ text two in
    let four = pair-Splits put_string _ text three in
    let five = pair-Splits put_string _ text four in
    five (header_of f) (header_of g) r s (tt, (tt, (tt, (tt, (tt, p.version)))))
      (tt, (tt, (tt, (tt, (tt, q.version))))) small e

-- Facts with equal encodings are equal: no two facts are written by the same bytes.
pub canonical_fact_encoding-injective :
    (f g : Fact)
    → IsFact f
    → IsFact g
    → Small (canonical_fact_encoding f)
    → canonical_fact_encoding f ≡ canonical_fact_encoding g
    → f ≡ g
canonical_fact_encoding-injective f g p q small e =
    let (same, rest, small') =
      fact_header-eq f g (value_encoding f.value) (value_encoding g.value) p q
        (rw (← fact_encoding-header f) small)
        (rw (← fact_encoding-header f, ← fact_encoding-header g) e) in
    let value = value_encoding-injective f.value g.value p.value q.value small' rest in cc

Small-front : (text r : Bytes) → Small (put_string text ++ r) → Small text
unfolding put_string put_uint
Small-front text r small = omega (arith, length-append text r)

put_fact-Splits : Splits IsFact put_fact
unfolding put_fact
put_fact-Splits f g r s p q small e =
    let (same, rest, small') =
      put_string-Splits (canonical_fact_encoding f) (canonical_fact_encoding g) r s tt tt small e in
    (
      canonical_fact_encoding-injective f g p q (Small-front (canonical_fact_encoding f) r small)
          same,
      rest,
      small',
    )

put_fact-IsMarked : IsMarked put_fact
unfolding put_fact
put_fact-IsMarked f = put_string-IsMarked (canonical_fact_encoding f)

pub record IsFacts (fs : Facts) : Type 0 where
  pub requested : All IsFact fs.requested
  pub target_added : All IsFact fs.target_added
  pub effective : All IsFact fs.effective
  pub unsupported : All IsFact fs.unsupported

abbrev ManifestFields : Type 0
ManifestFields = ℤ × (ℤ × (Bytes × (Bytes × (List Fact × (List Fact × (List Fact × List Fact))))))

abbrev manifest_of : ℤ → Bytes → Bytes → Facts → ManifestFields
manifest_of n overlay recipe fs = (
  authority_manifest_version,
  (n, (overlay, (recipe, (fs.requested, (fs.target_added, (fs.effective, fs.unsupported)))))),
)

manifest_body : ManifestFields → Bytes
manifest_body c =
    put_int c.0
    ++ (put_int c.1.0
        ++ (put_string c.1.1.0
            ++ (put_string c.1.1.1.0
                ++ (put_list put_fact c.1.1.1.1.0
                    ++ (put_list put_fact c.1.1.1.1.1.0
                        ++ (put_list put_fact c.1.1.1.1.1.1.0
                            ++ put_list put_fact c.1.1.1.1.1.1.1))))))

abbrev IsManifest : ManifestFields → Type 0
IsManifest c =
    IsInt c.0
    × (IsInt c.1.0
        × (Unit {0}
            × (Unit {0}
                × (All IsFact c.1.1.1.1.0
                    × (All IsFact c.1.1.1.1.1.0
                        × (All IsFact c.1.1.1.1.1.1.0 × All IsFact c.1.1.1.1.1.1.1))))))

manifest_body-Splits : Splits IsManifest manifest_body
unfolding manifest_body
manifest_body-Splits a b r s =
    let text = put_string-Splits in
    let facts = put_list-Splits put_fact put_fact-IsMarked put_fact-Splits in
    let one = pair-Splits (put_list put_fact) (put_list put_fact) facts facts in
    let two = pair-Splits (put_list put_fact) _ facts one in
    let three = pair-Splits (put_list put_fact) _ facts two in
    let four = pair-Splits put_string _ text three in
    let five = pair-Splits put_string _ text four in
    let six = pair-Splits put_int _ put_int-Splits five in
    let seven = pair-Splits put_int _ put_int-Splits six in seven a b r s

manifest_of-IsManifest :
    (n : ℤ) (overlay recipe : Bytes) (fs : Facts)
    → IsInt n
    → IsFacts fs
    → IsManifest (manifest_of n overlay recipe fs)
manifest_of-IsManifest n overlay recipe fs p pf = (
  omega arith,
  (p, (tt, (tt, (pf.requested, (pf.target_added, (pf.effective, pf.unsupported)))))),
)

-- Manifests with equal bytes are of the same version, overlay, recipe and facts, in each of the four
-- lists and in its order, where the versions are 64-bit integers, the facts are as the program builds
-- them, and the bytes fit a slice.
pub canonical_manifest-injective :
    (n m : ℤ) (overlay overlay' recipe recipe' : Bytes) (fs gs : Facts)
    → IsInt n
    → IsInt m
    → IsFacts fs
    → IsFacts gs
    → Small (canonical_manifest n overlay recipe fs)
    → canonical_manifest n overlay recipe fs ≡ canonical_manifest m overlay' recipe' gs
    → (n ≡ m) × (overlay ≡ overlay') × (recipe ≡ recipe') × (fs ≡ gs)
unfolding canonical_manifest manifest_body
canonical_manifest-injective n m overlay overlay' recipe recipe' fs gs p q pf qf small e =
    let first = manifest_of n overlay recipe fs in
    let second = manifest_of m overlay' recipe' gs in
    let bodies = append_cancel_left manifest_tag (manifest_body first) (manifest_body second) e in
    let (same, _, _) =
      manifest_body-Splits first second [] [] (manifest_of-IsManifest n overlay recipe fs p pf)
        (manifest_of-IsManifest m overlay' recipe' gs q qf)
        (rw append-nil (omega (arith, length-append manifest_tag (manifest_body first))))
        (ap (λ z. z ++ []) bodies) in
    (ap (λ z. z.1.0) same, ap (λ z. z.1.1.0) same, ap (λ z. z.1.1.1.0) same, cc)
