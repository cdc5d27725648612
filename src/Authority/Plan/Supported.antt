-- ===== src/Authority/Plan/Supported.antt =====
-- internal/authority/plan.go: the semantics of a new Plan.
use ai_config_selector.Authority.Plan.{
  Contribution, requirements_of, registered_semantics, fill_semantics, mcp_id, select_servers,
  plan_semantics, last_set, new,
}
use ai_config_selector.Authority.Recipe.{TargetRequirements, is_empty}
use ai_config_selector.Authority.Semantics.{
  TargetSemantics, no_semantics, deep_equal_iff, supports, devin, codex, grok,
}
use ai_config_selector.Authority.Semantics.Supported.{Admits, supports_iff}
use ai_config_selector.Intent.Mcp.{Server}
use ai_config_selector.Prelude.{
  ◌≡◌, ◌⊎◌, inl, inr, refl, ap, Bool, true, false, Bool-cases, if◌then◌else◌, Option, List, [], ◌∷◌,
  sym, subst, arith,
}
use ai_config_selector.Prelude.Bytes.{Bytes, bytes_eq, bytes_eq_iff}

-- The registration of a target: its semantics are left out, or they are the ones of the recipe.
abbrev pub IsRegistered : Bytes → TargetSemantics → Type 0
IsRegistered recipe semantics =
    (semantics ≡ no_semantics) ⊎ (semantics ≡ registered_semantics recipe)

filled :
    (recipe : Bytes) (s : TargetSemantics)
    → IsRegistered recipe s
    → fill_semantics recipe s ≡ registered_semantics recipe
filled recipe s (inl e) = rw ((deep_equal_iff s no_semantics).1 e) refl
filled recipe s (inr e) = ground (arith, deep_equal_iff s no_semantics)

-- The registered semantics with the servers or without them.
abbrev chosen : Bytes → Bool → TargetSemantics
chosen recipe bare =
    if bare
    then registered_semantics recipe
    else select_servers (mcp_id recipe) (registered_semantics recipe)

abbrev ChosenAdmits : Bytes → Type 0
ChosenAdmits recipe = (bare : Bool) → Admits recipe (chosen recipe bare)

devin-ChosenAdmits : ChosenAdmits devin
unfolding bytes_eq
devin-ChosenAdmits true = refl
devin-ChosenAdmits false = refl

codex-ChosenAdmits : ChosenAdmits codex
unfolding bytes_eq
codex-ChosenAdmits true = inl refl
codex-ChosenAdmits false = inr refl

grok-ChosenAdmits : ChosenAdmits grok
unfolding bytes_eq
grok-ChosenAdmits true = inl refl
grok-ChosenAdmits false = inr refl

chosen-Admits : (recipe : Bytes) → ChosenAdmits recipe
chosen-Admits recipe = elim (Bool-cases (bytes_eq recipe devin)) [
  | inl d ↦ subst ChosenAdmits (sym ((bytes_eq_iff recipe devin).0 d)) devin-ChosenAdmits
  | inr d ↦ elim (Bool-cases (bytes_eq recipe codex)) [
    | inl c ↦ subst ChosenAdmits (sym ((bytes_eq_iff recipe codex).0 c)) codex-ChosenAdmits
    | inr c ↦ elim (Bool-cases (bytes_eq recipe grok)) [
      | inl g ↦ subst ChosenAdmits (sym ((bytes_eq_iff recipe grok).0 g)) grok-ChosenAdmits
      | inr g ↦ λ bare. rw (d, c, g) (other bare)
    ]
  ]
]
  where
    other : (bare : Bool) → (if bare then no_semantics else no_semantics) ≡ no_semantics
    other true = refl
    other false = refl

plan_semantics-chosen :
    (recipe : Bytes) (s : TargetSemantics) (servers : List Server)
    → IsRegistered recipe s
    → plan_semantics recipe s servers ≡ chosen recipe (is_empty servers)
unfolding plan_semantics
plan_semantics-chosen recipe s [] h = filled recipe s h
plan_semantics-chosen recipe s (x ∷ servers) h =
    ap (select_servers (mcp_id recipe)) (filled recipe s h)

-- A new Plan is supported by its own recipe, whatever the contributions select, where the requirements
-- carry the semantics of that recipe or none.
pub supports-new :
    (contributions : List Contribution) (access overlay : Bytes)
    (supplied : Option TargetRequirements)
    → IsRegistered
        (requirements_of overlay supplied).recipe
        (requirements_of overlay supplied).semantics
    → supports
        (new contributions access overlay supplied).requirements.semantics
        (new contributions access overlay supplied).requirements.recipe
      ≡ true
unfolding new
supports-new contributions access overlay supplied h =
    let requirements = requirements_of overlay supplied in
    let servers = last_set (λ c. c.mcp_servers) [] contributions in
    (supports_iff _ requirements.recipe).1 (
      subst (Admits requirements.recipe)
        (sym (plan_semantics-chosen requirements.recipe requirements.semantics servers h))
        (chosen-Admits requirements.recipe (is_empty servers)))
