-- ===== src/Authority/Explain.antt =====
-- internal/authority/plan.go: buildExplanation, the facts of a Plan in their canonical order and the digest
-- of their manifest. SHA-256, in hexadecimal digits, is an argument.
pub mod Reorder
use ai_config_selector.Authority.Facts.{Fact, Facts}
use ai_config_selector.Authority.Encoding.{canonical_fact_encoding, canonical_manifest}
use ai_config_selector.Authority.Intents.{
  no_value, no_facts, join_facts, facts_of, profile_source, stored_intent, path_grant_fact,
  path_exclusion_fact, executable_grant_fact, environment_fact,
}
use ai_config_selector.Authority.Plan.{Plan, Contribution, workspace_access}
use ai_config_selector.Authority.Recipe.{recipe_facts}
use ai_config_selector.Authority.Sandbox.{runtime_facts}
use ai_config_selector.Prelude.{Option, none, some, List, [], ◌∷◌, ◌++◌}
use ai_config_selector.Prelude.Bytes.{Bytes, codes}
use ai_config_selector.Prelude.Int.{ℤ, pos}
use ai_config_selector.Prelude.Order.{Order, bytes_order, pair_order}
use ai_config_selector.Prelude.Sort.{sort_by}

-- profile.CurrentVersion
abbrev pub current_version : ℤ
current_version = pos 1

unfoldable pub workspace_facts : Bytes → Facts
workspace_facts access = record no_facts {
  requested =
      record {
        id = codes "common.workspace";
        kind = codes "workspace";
        value = record no_value { access = access };
        reason = stored_intent;
        source = profile_source (codes "workspace");
      }
      ∷ [];
}

-- What one contribution adds, if it has facts.
abbrev pub contributed : Bytes → Contribution → Facts
contributed overlay c = elim c.semantic_facts [ none ↦ no_facts | some semantic ↦ semantic overlay ]

-- The facts in the order in which they are added.
unfoldable pub gathered_facts : Plan → Facts
gathered_facts plan = join_facts (workspace_facts (workspace_access plan)) (
    join_facts (facts_of (path_grant_fact (workspace_access plan)) plan.path_grant_intents) (
      join_facts (facts_of path_exclusion_fact plan.path_exclusion_intents) (
        join_facts (facts_of executable_grant_fact plan.executable_grant_intents) (
          join_facts (facts_of environment_fact plan.environment_intents) (
            join_facts (facts_of (contributed plan.overlay) plan.contributions) (
              join_facts
                (recipe_facts (record {
                  requirements = plan.requirements;
                  overlay = plan.overlay;
                  auth_source = plan.auth_source;
                  command_form = plan.command_form;
                  command_arguments = plan.command_arguments;
                  servers = plan.mcp_server_intents;
                }))
                (runtime_facts plan.runtime_authority)))))))

-- The order of sort.Slice: by ID, and then by the bytes of the encoding.
unfoldable pub fact_key : Fact → Bytes × Bytes
unfolding canonical_fact_encoding
fact_key f = (f.id, canonical_fact_encoding f)

abbrev pub fact_order : Order (Bytes × Bytes)
fact_order = pair_order bytes_order bytes_order

unfoldable pub sort_facts : List Fact → List Fact
unfolding fact_key sort_by
sort_facts facts = sort_by ⦃o = fact_order⦄ fact_key facts

unfoldable pub in_order : Facts → Facts
unfolding sort_facts
in_order facts = record {
  requested = sort_facts facts.requested;
  target_added = sort_facts facts.target_added;
  effective = sort_facts facts.effective;
  unsupported = sort_facts facts.unsupported;
}

pub record Explanation : Type 0 where
  pub authority_manifest_version : ℤ
  pub authority_digest : Bytes
  pub facts : Facts

-- The facts in their order, with the digest of the manifest.
unfoldable pub with_digest : (Bytes → Bytes) → Bytes → Bytes → Facts → Explanation
unfolding canonical_manifest
with_digest sum overlay recipe facts = record {
  authority_manifest_version = pos 1;
  authority_digest =
      codes "sha256:" ++ sum (canonical_manifest current_version overlay recipe facts);
  facts = facts;
}

unfoldable pub build_explanation : (Bytes → Bytes) → Plan → Explanation
build_explanation sum plan =
    with_digest sum plan.overlay plan.requirements.recipe (in_order (gathered_facts plan))
