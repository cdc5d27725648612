-- ===== src/Authority/Encoding/Sections.antt =====
-- internal/authority/plan.go: the sections of a fact that are written only where it has them.
use ai_config_selector.Authority.Encoding.{
  put_uint, put_string, put_list, put_argument, put_required, mcp_tag, reference_tag,
  environment_tag, non_empty, has_environment, put_if, mcp_fields, environment_fields,
  environment_section, reference_section, mcp_section, fact_sections,
}
use ai_config_selector.Authority.Encoding.Splits.{
  Small, put_string-Splits, put_required-Splits, pair-Tells, regroup,
}
use ai_config_selector.Authority.Encoding.Lists.{texts-Splits, arguments-Splits}
use ai_config_selector.Authority.Facts.{FactValue, McpArgumentReference}
use ai_config_selector.Prelude.{
  Bool, true, false, ◌≡◌, ◌≢◌, ◌<◌, refl, sym, ap, subst, ◌∙◌, Option, List, [], ◌∷◌, ◌++◌, length,
  arith, ◌⊎◌, inl, inr,
}
use ai_config_selector.Prelude.Bytes.{Bytes}
use mathlib.Core.List.{append_assoc, append-nil}

-- What the section of the environment holds: all of its fields, or nothing where they are empty.
pub record SameEnvironment (v w : FactValue) : Type 0 where
  pub destination : v.destination ≡ w.destination
  pub scope : v.scope ≡ w.scope
  pub source_kind : v.source_kind ≡ w.source_kind
  pub provider : v.provider ≡ w.provider
  pub classification : v.classification ≡ w.classification
  pub required : v.required ≡ w.required

-- The same for the section of an MCP server.
pub record SameMcp (v w : FactValue) : Type 0 where
  pub arguments : v.mcp_arguments ≡ w.mcp_arguments
  pub environment_references : v.mcp_environment_references ≡ w.mcp_environment_references
  pub disabled_tools : v.mcp_disabled_tools ≡ w.mcp_disabled_tools

abbrev EnvironmentFields : Type 0
EnvironmentFields = Bytes × (Bytes × (Bytes × (Bytes × (Bytes × Option Bool))))

abbrev environment_of : FactValue → EnvironmentFields
environment_of v =
    (v.destination, (v.scope, (v.source_kind, (v.provider, (v.classification, v.required)))))

environment_fields-eq :
    (v w : FactValue) (r s : Bytes)
    → Small (environment_fields v ++ r)
    → environment_fields v ++ r ≡ environment_fields w ++ s
    → SameEnvironment v w
unfolding environment_fields
environment_fields-eq v w r s small e =
    let text = put_string-Splits in
    let one = pair-Tells put_string put_required text put_required-Splits in
    let two = pair-Tells put_string _ text one in
    let three = pair-Tells put_string _ text two in
    let four = pair-Tells put_string _ text three in
    let five = pair-Tells put_string _ text four in
    let (same, _, _) = five (environment_of v) (environment_of w) r s tt tt small e in
    record {
      destination = ap (λ z. z.0) same;
      scope = ap (λ z. z.1.0) same;
      source_kind = ap (λ z. z.1.1.0) same;
      provider = ap (λ z. z.1.1.1.0) same;
      classification = ap (λ z. z.1.1.1.1.0) same;
      required = ap (λ z. z.1.1.1.1.1) same;
    }

abbrev McpFields : Type 0
McpFields = List McpArgumentReference × (List Bytes × List Bytes)

mcp_fields-eq :
    (v w : FactValue) (r s : Bytes)
    → Small (mcp_fields v ++ r)
    → mcp_fields v ++ r ≡ mcp_fields w ++ s
    → SameMcp v w × (r ≡ s) × Small r
unfolding mcp_fields
mcp_fields-eq v w r s small e =
    let names = pair-Tells (put_list put_string) (put_list put_string) texts-Splits texts-Splits in
    let all = pair-Tells (put_list put_argument) _ arguments-Splits names in
    let first : McpFields =
      (v.mcp_arguments, (v.mcp_environment_references, v.mcp_disabled_tools)) in
    let second : McpFields =
      (w.mcp_arguments, (w.mcp_environment_references, w.mcp_disabled_tools)) in
    let (same, rest, small') = all first second r s tt tt small e in
    (
      record {
        arguments = ap (λ z. z.0) same;
        environment_references = ap (λ z. z.1.0) same;
        disabled_tools = ap (λ z. z.1.1) same;
      },
      rest,
      small',
    )

-- A section that is left out holds only empty fields.
empty_text : (t : Bytes) → non_empty t ≡ false → t ≡ []
empty_text [] h = refl
empty_text (b ∷ t) h = cc

no_environment :
    (v w : FactValue) → has_environment v ≡ false → has_environment w ≡ false → SameEnvironment v w
no_environment v w h k = record {
  destination = ground arith;
  scope = ground arith;
  source_kind = ground arith;
  provider = ground arith;
  classification = ground arith;
  required = ground arith;
}

-- No text behind the tag `t` is `bytes`.
abbrev LacksTag : Bytes → Bytes → Type 0
LacksTag t bytes = (z : Bytes) → put_string t ++ z ≢ bytes

LacksTag-nil : (t : Bytes) → LacksTag t []
unfolding put_string put_uint
LacksTag-nil t z e = cc

-- Nor a section with another tag, in front of what lacks it too.
LacksTag-put_if :
    (t u x r : Bytes) (present : Bool)
    → length u < length t
    → length t < 256
    → LacksTag t r
    → LacksTag t (put_if present (put_string u ++ x) ++ r)
unfolding put_string put_uint
LacksTag-put_if t u x r false lt small lacks z e = lacks z e
LacksTag-put_if t u x r true lt small lacks z e = absurd (ground arith)

abbrev BothPresent : (p q : Bool) (x y r s : Bytes) → Type 0
BothPresent p q x y r s = (p ≡ true) × (q ≡ true) × (x ++ r ≡ y ++ s) × Small (x ++ r)

abbrev BothAbsent : (p q : Bool) (r s : Bytes) → Type 0
BothAbsent p q r s = (p ≡ false) × (q ≡ false) × (r ≡ s) × Small r

-- Equal texts both have the section, or both lack it.
section-eq :
    (t x y r s : Bytes) (p q : Bool)
    → LacksTag t r
    → LacksTag t s
    → Small (put_if p (put_string t ++ x) ++ r)
    → put_if p (put_string t ++ x) ++ r ≡ put_if q (put_string t ++ y) ++ s
    → BothPresent p q x y r s ⊎ BothAbsent p q r s
section-eq t x y r s true true lr ls small e =
    let (_, same, small') =
      put_string-Splits t t (x ++ r) (y ++ s) tt tt
        (subst Small (append_assoc (put_string t) x r) small)
        (regroup (put_string t) x r (put_string t) y s e) in
    inl (refl, refl, same, small')
section-eq t x y r s true false lr ls small e =
    absurd (ls (x ++ r) (sym (append_assoc (put_string t) x r) ∙ e))
section-eq t x y r s false true lr ls small e =
    absurd (lr (y ++ s) (sym (append_assoc (put_string t) y s) ∙ sym e))
section-eq t x y r s false false lr ls small e = inr (refl, refl, e, small)

environment_section-eq :
    (v w : FactValue)
    → Small (environment_section v)
    → environment_section v ≡ environment_section w
    → SameEnvironment v w
unfolding environment_section
environment_section-eq v w small e =
    elim (section-eq environment_tag (environment_fields v) (environment_fields w) [] []
      (has_environment v) (has_environment w) (LacksTag-nil environment_tag)
      (LacksTag-nil environment_tag) (rw append-nil small) (ap (λ z. z ++ []) e)) [
        | inl (_, _, same, small') ↦ environment_fields-eq v w [] [] small' same
        | inr (h, k, _, _) ↦ no_environment v w h k
      ]

environment_section-LacksTag :
    (t : Bytes) (v : FactValue)
    → 19 < length t
    → length t < 256
    → LacksTag t (environment_section v)
unfolding environment_section
environment_section-LacksTag t v lt small = subst (LacksTag t) (append-nil _) (
    LacksTag-put_if t environment_tag (environment_fields v) [] (has_environment v) lt small
      (LacksTag-nil t))

reference_sections-LacksTag :
    (v : FactValue) → LacksTag mcp_tag (reference_section v ++ environment_section v)
unfolding reference_section
reference_sections-LacksTag v =
    LacksTag-put_if mcp_tag reference_tag (put_string v.logical_reference) (environment_section v)
      (non_empty v.logical_reference) (omega arith) (omega arith)
      (environment_section-LacksTag mcp_tag v (omega arith) (omega arith))

reference_section-eq :
    (v w : FactValue)
    → Small (reference_section v ++ environment_section v)
    → reference_section v ++ environment_section v ≡ reference_section w ++ environment_section w
    → (v.logical_reference ≡ w.logical_reference) × SameEnvironment v w
unfolding reference_section
reference_section-eq v w small e =
    elim (section-eq reference_tag (put_string v.logical_reference) (put_string w.logical_reference)
      (environment_section v) (environment_section w) (non_empty v.logical_reference)
      (non_empty w.logical_reference)
      (environment_section-LacksTag reference_tag v (omega arith) (omega arith))
      (environment_section-LacksTag reference_tag w (omega arith) (omega arith)) small e) [
        | inl (_, _, same, small') ↦
            let (text, rest, small'') =
              put_string-Splits v.logical_reference w.logical_reference _ _ tt tt small' same in
            (text, environment_section-eq v w small'' rest)
        | inr (h, k, rest, small') ↦
            (empty_text _ h ∙ sym (empty_text _ k), environment_section-eq v w small' rest)
      ]

-- A fact that is not about an MCP server holds no list of one.
abbrev pub HidesNothing : FactValue → Type 0
HidesNothing v =
    v.mcp_present ≡ false
    → (v.mcp_arguments ≡ []) × (v.mcp_environment_references ≡ []) × (v.mcp_disabled_tools ≡ [])

pub record SameSections (v w : FactValue) : Type 0 where
  pub present : v.mcp_present ≡ w.mcp_present
  pub mcp : SameMcp v w
  pub reference : v.logical_reference ≡ w.logical_reference
  pub environment : SameEnvironment v w

pub fact_sections-eq :
    (v w : FactValue)
    → HidesNothing v
    → HidesNothing w
    → Small (fact_sections v)
    → fact_sections v ≡ fact_sections w
    → SameSections v w
unfolding fact_sections mcp_section
fact_sections-eq v w hv hw small e =
    elim (section-eq mcp_tag (mcp_fields v) (mcp_fields w) _ _ v.mcp_present w.mcp_present
      (reference_sections-LacksTag v) (reference_sections-LacksTag w) small e) [
        | inl (p, q, same, small') ↦
            let (fields, rest, small'') = mcp_fields-eq v w _ _ small' same in
            let (reference, environment) = reference_section-eq v w small'' rest in
            record {
              present = p ∙ sym q;
              mcp = fields;
              reference = reference;
              environment = environment;
            }
        | inr (p, q, rest, small') ↦
            let (reference, environment) = reference_section-eq v w small' rest in
            let (a, b, c) = hv p in
            let (a', b', c') = hw q in
            record {
              present = p ∙ sym q;
              mcp = record {
                arguments = a ∙ sym a';
                environment_references = b ∙ sym b';
                disabled_tools = c ∙ sym c';
              };
              reference = reference;
              environment = environment;
            }
      ]
