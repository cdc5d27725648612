-- ===== src/Tests/Authority.antt =====
-- internal/authority and the runtime authority of internal/launch, on concrete inputs.
mod Encodable
use mathlib.Core.List.{Permᴰ}
use mathlib.Core.List.Permᴰ
use ai_config_selector.Authority.Facts.{FactSource, FactValue, Fact, Facts}
use ai_config_selector.Authority.Encoding.{
  canonical_manifest, canonical_fact_encoding, put_int, put_uint, put_string, put_list, put_each,
  put_fact, value_encoding, put_identity, put_count, fact_sections, mcp_section, reference_section,
  environment_section,
}
use ai_config_selector.Authority.Encoding.Injective.{IsFacts, canonical_manifest-injective}
use ai_config_selector.Authority.Intents.{
  no_value, no_facts, profile_source, ExecutableGrantIntent, executable_grant_fact, join_facts,
  facts_of, path_grant_fact, path_exclusion_fact, environment_fact,
}
use ai_config_selector.Authority.Semantics.{
  TargetSemantics, codex_semantics, codex, supports, deep_equal,
}
use ai_config_selector.Authority.Semantics.Supported.{Admits, with_servers, supports_iff}
use ai_config_selector.Authority.Recipe.{TargetRequirements, recipe_facts}
use ai_config_selector.Authority.Sandbox.{runtime_facts, digits}
use ai_config_selector.Authority.Plan.{
  Plan, Contribution, PlanError, new, for_command_intent, with_auth_ref, needs_common_authority,
}
use ai_config_selector.Authority.Plan.Supported.{supports-new}
use ai_config_selector.Authority.Explain.{build_explanation, gathered_facts, workspace_facts}
use ai_config_selector.Authority.Explain.Reorder.{AllEncodable, build_explanation-new_reorder}
use ai_config_selector.Intent.Network.{canonical, check_ports}
use ai_config_selector.Launch.Resolve.{PathGrantIntent}
use ai_config_selector.Launch.Runtime.{
  RuntimeAuthority, RuntimeError, default_runtime_authority, normalize_runtime_authority,
  allowed_authority, no_authority, unsupported_authority, bad_callback,
}
use ai_config_selector.Launch.Runtime.Normal.{Narrowed, normalize_runtime_authority_iff}
use ai_config_selector.Prelude.{
  ℕ, Bool, true, false, ◌≡◌, ◌↔◌, ◌⊎◌, inl, inr, refl, Option, none, some, List, [], ◌∷◌, ok, err,
  arith,
}
use ai_config_selector.Prelude.Bytes.{Bytes, codes, bytes_eq, bytes_lt}
use ai_config_selector.Prelude.Sort.{sort_by, insert_by}
use ai_config_selector.Prelude.Int.{ℤ, pos}
use Encodable.{facts_are_encodable, all_encodable, is_encodable, AllEncodable-of_test}

abbrev skills_fact : Fact
skills_fact = record {
  id = codes "common.skills";
  kind = codes "capability";
  value = record no_value { mode = codes "exact"; count = some (pos 2); names = codes "a" ∷ [] };
  reason = codes "stored_selection";
  source = profile_source (codes "skills");
}

abbrev skills_facts : Facts
skills_facts = record no_facts { requested = skills_fact ∷ [] }

skills_IsFacts : IsFacts skills_facts
skills_IsFacts = record {
  requested = (
    record {
      version = omega arith;
      value = record { count = omega arith; hides_nothing = λ _. (refl, refl, refl) };
    },
    tt,
  );
  target_added = tt;
  effective = tt;
  unsupported = tt;
}

canonical_manifest-injective_example :
    (pos 1 ≡ pos 1)
    × (codes "devin" ≡ codes "devin")
    × (codes "devin" ≡ codes "devin")
    × (skills_facts ≡ skills_facts)
unfolding canonical_manifest put_int put_uint put_string put_list put_each put_fact
    canonical_fact_encoding value_encoding put_identity put_count fact_sections mcp_section
    reference_section environment_section
canonical_manifest-injective_example =
    canonical_manifest-injective (pos 1) (pos 1) (codes "devin") (codes "devin") (codes "devin")
      (codes "devin") skills_facts skills_facts (omega arith) (omega arith) skills_IsFacts
      skills_IsFacts (omega arith) refl

abbrev no_contribution : Contribution
no_contribution = record {
  id = codes "none";
  loopback_ports = none;
  path_exclusions = [];
  material_origins = [];
  path_grants = [];
  executable_grants = [];
  environment = [];
  mcp_servers = none;
  semantic_facts = none;
}

abbrev network : Contribution
network = record no_contribution { id = codes "network"; loopback_ports = some (pos 8080 ∷ []) }

abbrev skills : Contribution
skills = record no_contribution {
  id = codes "skills";
  semantic_facts = some (λ overlay. skills_facts);
}

abbrev two_contributions : List Contribution
two_contributions = network ∷ skills ∷ []

two_test : facts_are_encodable (gathered_facts (new two_contributions [] [] none)) ≡ true
unfolding facts_are_encodable all_encodable is_encodable gathered_facts new join_facts facts_of
    recipe_facts runtime_facts workspace_facts put_int put_uint put_string put_list put_each
    put_fact canonical_fact_encoding value_encoding put_identity put_count fact_sections mcp_section
    reference_section environment_section bytes_eq sort_by insert_by bytes_lt digits
two_test = refl

two_encodable : AllEncodable (gathered_facts (new two_contributions [] [] none))
two_encodable = AllEncodable-of_test _ two_test

build_explanation-new_reorder_example :
    build_explanation (λ bytes. bytes) (new two_contributions [] [] none)
    ≡ build_explanation (λ bytes. bytes) (new (skills ∷ network ∷ []) [] [] none)
build_explanation-new_reorder_example =
    build_explanation-new_reorder (λ bytes. bytes) [] [] none (Permᴰ.swap refl refl) (omega arith)
      (omega arith) two_encodable

supports-new_example :
    supports
      (new two_contributions [] (codes "devin") none).requirements.semantics
      (new two_contributions [] (codes "devin") none).requirements.recipe
    ≡ true
supports-new_example = supports-new two_contributions [] (codes "devin") none (inl refl)

supports_iff_example : (supports codex_semantics codex ≡ true) ↔ Admits codex codex_semantics
supports_iff_example = supports_iff codex_semantics codex

normalize_runtime_authority_iff_example :
    (normalize_runtime_authority (allowed_authority (pos 8080 ∷ []) false)
      ≡ ok (allowed_authority (pos 8080 ∷ []) false))
    ↔ (((allowed_authority (pos 8080 ∷ []) false ≡ no_authority)
          × (allowed_authority (pos 8080 ∷ []) false ≡ default_runtime_authority))
        ⊎ Narrowed
            (allowed_authority (pos 8080 ∷ []) false)
            (allowed_authority (pos 8080 ∷ []) false))
normalize_runtime_authority_iff_example =
    normalize_runtime_authority_iff (allowed_authority (pos 8080 ∷ []) false)
      (allowed_authority (pos 8080 ∷ []) false)

abbrev two_plan : Plan
two_plan = new two_contributions [] [] none

-- A command takes the authority of a common Profile, and no overlay's.
command_of_profile :
    for_command_intent two_plan (codes "validated") (pos 2)
    ≡ ok (record two_plan {
      requirements = record (two_plan.requirements) { recipe = codes "command" };
      command_form = codes "validated";
      command_arguments = pos 2;
    })
unfolding for_command_intent new bytes_eq
command_of_profile = refl

command_of_overlay :
    for_command_intent (new two_contributions [] (codes "devin") none) [] (pos 0)
    ≡ err needs_common_authority
unfolding for_command_intent new bytes_eq
command_of_overlay = refl

-- Another port than 1455 is no callback.
other_callback :
    normalize_runtime_authority (allowed_authority (pos 8080 ∷ []) true) ≡ err bad_callback
unfolding normalize_runtime_authority default_runtime_authority canonical sort_by insert_by
    check_ports
other_callback = refl
