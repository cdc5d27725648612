-- ===== src/Authority/Intents.antt =====
-- internal/authority/plan.go: the facts of the selected intents (pathGrantFacts, pathExclusionFacts,
-- executableGrantFacts and environmentFacts).
use ai_config_selector.Authority.Facts.{FactSource, FactValue, Fact, Facts}
use ai_config_selector.Prelude.{
  Bool, false, ◌&&◌, ◌||◌, if◌then◌else◌, none, some, List, [], ◌∷◌, ◌++◌,
}
use ai_config_selector.Prelude.Bytes.{Bytes, codes, bytes_eq}
use ai_config_selector.Prelude.Int.{pos}
use ai_config_selector.Intent.Paths.{read_only, read_write}
use ai_config_selector.Intent.Reference.{workspace_relative}
use ai_config_selector.Intent.Executables.{fixed_search_name}
use ai_config_selector.Launch.Resolve.{PathGrantIntent}
use ai_config_selector.Launch.Exclusions.{PathExclusionIntent}

-- FactValue{}
abbrev pub no_value : FactValue
no_value = record {
  access = [];
  mode = [];
  logical_location = [];
  logical_reference = [];
  requirement_id = [];
  identity = none;
  names = [];
  count = none;
  destination = [];
  scope = [];
  source_kind = [];
  provider = [];
  classification = [];
  required = none;
  mcp_arguments = [];
  mcp_environment_references = [];
  mcp_disabled_tools = [];
  mcp_present = false;
}

abbrev pub no_facts : Facts
no_facts = record { requested = []; target_added = []; effective = []; unsupported = [] }

-- The `add` of buildExplanation.
unfoldable pub join_facts : Facts → Facts → Facts
join_facts f g = record {
  requested = f.requested ++ g.requested;
  target_added = f.target_added ++ g.target_added;
  effective = f.effective ++ g.effective;
  unsupported = f.unsupported ++ g.unsupported;
}

-- The facts of every intent of a list.
unfoldable pub facts_of {ℓ} : {A : Type ℓ} → (A → Facts) → List A → Facts
facts_of each [] = no_facts
facts_of each (a ∷ rest) = join_facts (each a) (facts_of each rest)

abbrev pub profile_source : Bytes → FactSource
profile_source id = record { kind = codes "profile"; id = id; version = pos 1 }

abbrev pub stored_intent : Bytes
stored_intent = codes "stored_intent"

abbrev pub when_relative : Bytes → Bytes → Bytes
when_relative reference_kind path = if bytes_eq reference_kind workspace_relative then path else []

unfoldable pub path_grant_value : PathGrantIntent → FactValue
path_grant_value intent = record no_value {
  access = intent.access;
  mode = intent.type;
  logical_location = intent.id;
  names = intent.reference_kind ∷ [];
  logical_reference = when_relative intent.reference_kind intent.path;
}

-- What the access of the workspace covers already.
abbrev pub covered_by_workspace : Bytes → PathGrantIntent → Bool
covered_by_workspace workspace intent =
    bytes_eq intent.reference_kind workspace_relative
    && (bytes_eq intent.access read_only || bytes_eq workspace read_write)

unfoldable pub path_grant_fact : Bytes → PathGrantIntent → Facts
path_grant_fact workspace intent = record no_facts {
  requested =
      record {
        id = codes "common.paths." ++ intent.id;
        kind = codes "filesystem";
        value = path_grant_value intent;
        reason = stored_intent;
        source = profile_source (codes "paths");
      }
      ∷ [];
  effective =
      if covered_by_workspace workspace intent
      then []
      else record {
        id = codes "path." ++ intent.id;
        kind = codes "filesystem";
        value = path_grant_value intent;
        reason = codes "common_path_identity_unchecked";
        source = profile_source (codes "paths");
      }
        ∷ [];
}

unfoldable pub path_exclusion_fact : PathExclusionIntent → Facts
path_exclusion_fact intent = record no_facts {
  requested = fact stored_intent ∷ [];
  effective = fact (codes "exclusion_identity_unchecked") ∷ [];
}
  where
    fact : Bytes → Fact
    fact reason = record {
      id = codes "common.exclusions." ++ intent.id;
      kind = codes "filesystem-exclusion";
      value = record no_value {
        access = codes "denied";
        mode = intent.type;
        logical_location = intent.id;
        names = intent.reference_kind ∷ [];
        logical_reference = when_relative intent.reference_kind intent.path;
      };
      reason = reason;
      source = profile_source (codes "exclusions");
    }

pub record ExecutableGrantIntent : Type 0 where
  pub id : Bytes
  pub reference_kind : Bytes
  pub name : Bytes
  pub path : Bytes

abbrev pub executable_value : ExecutableGrantIntent → FactValue
executable_value intent = record no_value {
  access = codes "read-execute";
  logical_location = intent.id;
  names = intent.reference_kind ∷ [];
  logical_reference =
      if bytes_eq intent.reference_kind workspace_relative
      then intent.path
      else if bytes_eq intent.reference_kind fixed_search_name
      then intent.name
      else [];
}

unfoldable pub executable_grant_fact : ExecutableGrantIntent → Facts
executable_grant_fact intent = record no_facts {
  requested =
      record {
        id = codes "common.executables." ++ intent.id;
        kind = codes "executable-visibility";
        value = executable_value intent;
        reason =
            if bytes_eq intent.reference_kind workspace_relative
            then codes "stored_intent_covered_by_workspace_read"
            else stored_intent;
        source = profile_source (codes "executables");
      }
      ∷ [];
  effective =
      if bytes_eq intent.reference_kind workspace_relative
      then []
      else record {
        id = codes "executable." ++ intent.id;
        kind = codes "filesystem";
        value = executable_value intent;
        reason = codes "profile_visibility_identity_unchecked";
        source = profile_source (codes "executables");
      }
        ∷ [];
}

-- environmentresource.Intent
pub record EnvironmentIntent : Type 0 where
  pub id : Bytes
  pub destination : Bytes
  pub scope : Bytes
  pub source_kind : Bytes
  pub source_name : Bytes
  pub provider : Bytes
  pub reference : Bytes
  pub classification : Bytes
  pub required : Bool

abbrev pub environment_value : EnvironmentIntent → FactValue
environment_value intent = record no_value {
  destination = intent.destination;
  scope = intent.scope;
  source_kind = intent.source_kind;
  classification = intent.classification;
  required = some intent.required;
  provider = if bytes_eq intent.source_kind (codes "secret-reference") then intent.provider else [];
}

unfoldable pub environment_fact : EnvironmentIntent → Facts
environment_fact intent = record no_facts {
  requested =
      record {
        id = codes "common.environment." ++ intent.id;
        kind = codes "environment";
        value = environment_value intent;
        reason = codes "stored_intent_value_omitted";
        source = profile_source (codes "environment");
      }
      ∷ [];
  effective =
      record {
        id = codes "environment." ++ intent.id;
        kind = codes "environment";
        value = environment_value intent;
        reason = codes "attached_process_tree_binding_unresolved";
        source = profile_source (codes "environment");
      }
      ∷ [];
}
