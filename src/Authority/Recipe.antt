-- ===== src/Authority/Recipe.antt =====
-- internal/authority/plan.go: recipeFacts and runtimeFacts, the facts of the selected target and of the
-- sandbox itself.
use ai_config_selector.Authority.Facts.{FactSource, FactValue, Fact, Facts}
use ai_config_selector.Authority.Intents.{no_value, profile_source}
use ai_config_selector.Authority.Semantics.{
  ConfigurationDecision, InheritanceRule, TargetSemantics, shell, devin, codex, grok, command,
  codex_mcp, grok_mcp, disabled,
}
use ai_config_selector.Prelude.{
  Bool, true, false, ◌&&◌, ◌||◌, if◌then◌else◌, some, List, [], ◌∷◌, ◌++◌, map, length,
}
use ai_config_selector.Prelude.Bytes.{Bytes, codes, bytes_eq}
use ai_config_selector.Prelude.Int.{ℤ, pos}
use ai_config_selector.Intent.Mcp.{Server}

pub record TargetRequirements : Type 0 where
  pub recipe : Bytes
  pub executable : Bytes
  pub executable_requirement_id : Bytes
  pub runtime_inputs : List Bytes
  pub runtime_input_ids : List Bytes
  pub existing_home_directory : Bytes
  pub protected_paths : List Bytes
  pub protected_path_ids : List Bytes
  pub semantics : TargetSemantics

-- What recipeFacts reads of the plan.
pub record RecipeInput : Type 0 where
  pub requirements : TargetRequirements
  pub overlay : Bytes
  pub auth_source : Bytes
  pub command_form : Bytes
  pub command_arguments : ℤ
  pub servers : List Server

abbrev pub source_of : Bytes → Bytes → ℤ → FactSource
source_of kind id version = record { kind = kind; id = id; version = version }

abbrev pub fixed_recipe : Bytes
fixed_recipe = codes "fixed_target_recipe"

abbrev pub decision_fact : FactSource → Bytes → ConfigurationDecision → Fact
decision_fact source kind d = record {
  id = d.id;
  kind = kind;
  value = record no_value { mode = d.mode };
  reason = fixed_recipe;
  source = source;
}

-- The decisions that are also listed as unsupported.
abbrev pub is_unsupported : ConfigurationDecision → Bool
is_unsupported d =
    (bytes_eq d.id (codes "codex.apps")
      || (bytes_eq d.id (codes "codex.plugins") || bytes_eq d.id (codes "grok.plugins")))
    || ((bytes_eq d.id codex_mcp || bytes_eq d.id grok_mcp) && bytes_eq d.mode disabled)

unfoldable pub unsupported_decisions : FactSource → List ConfigurationDecision → List Fact
unsupported_decisions source [] = []
unsupported_decisions source (d ∷ ds) =
    let rest = unsupported_decisions source ds in
    if is_unsupported d
    then decision_fact source (codes "generated-configuration") d ∷ rest
    else rest

abbrev pub unsupported_fact : FactSource → ConfigurationDecision → Fact
unsupported_fact source d = record {
  id = codes "unsupported." ++ d.id;
  kind = codes "target-control";
  value = record no_value { mode = d.mode };
  reason = codes "not_supported";
  source = source;
}

abbrev pub inheritance_fact : FactSource → InheritanceRule → Fact
inheritance_fact source rule = record {
  id = rule.id;
  kind = codes "project-inheritance";
  value = record no_value { names = rule.logical_roots };
  reason = codes "target_inheritance";
  source = source;
}

abbrev pub is_target : Bytes → Bool
is_target recipe = bytes_eq recipe devin || (bytes_eq recipe codex || bytes_eq recipe grok)

abbrev pub list_if : Bool → Fact → List Fact
list_if present fact = if present then fact ∷ [] else []

abbrev pub is_empty {ℓ} : {A : Type ℓ} → List A → Bool
is_empty [] = true
is_empty (a ∷ rest) = false

-- if text == "" then other
abbrev pub or_text : Bytes → Bytes → Bytes
or_text text other = if is_empty text then other else text

abbrev pub text_if : Bytes → Fact → List Fact
text_if text fact = list_if (if is_empty text then false else true) fact

module _ (input : RecipeInput) where
  abbrev recipe : Bytes
  recipe = input.requirements.recipe

  abbrev semantics : TargetSemantics
  semantics = input.requirements.semantics

  abbrev target : FactSource
  target = source_of (codes "target") recipe semantics.version

  unfoldable pub recipe_requested : List Fact
  recipe_requested =
      (record {
        id = codes "execution.recipe";
        kind = codes "recipe";
        value = record no_value { mode = recipe };
        reason = codes "selected_intent";
        source = source_of (codes "command") recipe (pos 0);
      }
        ∷ text_if input.overlay (record {
          id = codes "target.overlay";
          kind = codes "overlay";
          value = record no_value { mode = input.overlay };
          reason = codes "selected_target";
          source = profile_source input.overlay;
        }))
      ++ (text_if semantics.authentication_mode (record {
        id = recipe ++ codes ".authentication";
        kind = codes "opaque-binding";
        value = record no_value { mode = semantics.authentication_mode };
        reason = or_text input.auth_source (codes "overlay");
        source = target;
      })
          ++ list_if (bytes_eq recipe command) (record {
            id = codes "run.literal-argv";
            kind = codes "command";
            value = record no_value {
              mode = input.command_form;
              count = some input.command_arguments;
            };
            reason = codes "validated_command_recipe";
            source = source_of (codes "command") (codes "run") (pos 0);
          }))

  abbrev server_facts : List Fact
  server_facts =
      list_if ((if is_empty input.servers then false else true) && is_target recipe) (record {
        id = codes "target.mcp-servers";
        kind = codes "target-configuration";
        value = record no_value {
          mode = codes "selected-session-stdio-projection";
          count = some (pos (length input.servers));
          names = map (λ (s : Server). s.id) input.servers;
        };
        reason = fixed_recipe;
        source = target;
      })

  abbrev credential_facts : List Fact
  credential_facts = text_if semantics.credential_projection (record {
    id = recipe ++ codes ".credentials";
    kind = codes "credential-projection";
    value = record no_value { mode = semantics.credential_projection };
    reason = fixed_recipe;
    source = target;
  })

  abbrev executable_fact : Bytes → Bytes → FactValue → Bytes → FactSource → Fact
  executable_fact id kind value reason source = record {
    id = id;
    kind = kind;
    value = value;
    reason = reason;
    source = source;
  }

  abbrev program_facts : List Fact
  program_facts =
      list_if (bytes_eq recipe shell) (
        executable_fact (codes "sandbox.shell") (codes "executable")
          (record no_value { requirement_id = codes "system-zsh-no-rc" }) (codes "fixed_recipe")
          (source_of (codes "acs") (codes "sandbox") (pos 0)))
      ++ list_if (bytes_eq recipe command) (
          executable_fact (codes "run.command") (codes "executable")
            (record no_value { mode = codes "literal-no-shell" }) (codes "validated_command_recipe")
            (source_of (codes "command") (codes "run") (pos 0)))

  abbrev requires_executable : Bool
  requires_executable =
      is_target recipe
      && (if is_empty input.requirements.executable_requirement_id then false else true)

  abbrev required_value : Bytes → FactValue
  required_value access = record no_value {
    access = access;
    requirement_id = input.requirements.executable_requirement_id;
  }

  unfoldable pub recipe_target_added : List Fact
  recipe_target_added =
      map (decision_fact target (codes "generated-configuration")) semantics.configuration
      ++ (server_facts
          ++ (map (decision_fact target (codes "target-preflight")) semantics.preflights
              ++ (map (inheritance_fact target) semantics.inheritance
                  ++ (credential_facts
                      ++ (program_facts
                          ++ (list_if requires_executable (
                                executable_fact (codes "target.executable") (codes "executable")
                                  (required_value []) (codes "registered_requirement") target)
                              ++ map
                                  (λ id.
                                    executable_fact (codes "target.runtime." ++ id)
                                      (codes "runtime-input")
                                      (record no_value { requirement_id = id })
                                      (codes "registered_requirement") target)
                                  input.requirements.runtime_input_ids))))))

  unfoldable pub recipe_effective : List Fact
  recipe_effective =
      list_if requires_executable (
        executable_fact (codes "target.executable-access") (codes "filesystem")
          (required_value (codes "read-execute")) (codes "registered_requirement") target)
      ++ map
          (λ id.
            executable_fact (codes "target.runtime-access." ++ id) (codes "filesystem")
              (record no_value { access = codes "read"; requirement_id = id })
              (codes "registered_requirement") target)
          input.requirements.runtime_input_ids

  unfoldable pub recipe_facts : Facts
  unfolding recipe_requested recipe_target_added recipe_effective unsupported_decisions
  recipe_facts = record {
    requested = recipe_requested;
    target_added = recipe_target_added;
    effective = recipe_effective;
    unsupported =
        unsupported_decisions target semantics.configuration
        ++ map (unsupported_fact target) semantics.unsupported;
  }
