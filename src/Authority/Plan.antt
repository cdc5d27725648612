-- ===== src/Authority/Plan.antt =====
-- internal/authority/plan.go: New and the operations on a Plan. A contribution is known by what its
-- optional interfaces return; its other methods (Plan, Materialize, Verify) do not change the Plan.
pub mod Supported
use ai_config_selector.Authority.Facts.{Facts}
use ai_config_selector.Authority.Intents.{ExecutableGrantIntent, EnvironmentIntent}
use ai_config_selector.Authority.Recipe.{TargetRequirements, is_empty}
use ai_config_selector.Authority.Semantics.{
  TargetSemantics, no_semantics, devin_semantics, codex_semantics, grok_semantics, deep_equal,
  select_mcp, shell, devin, codex, grok, command, codex_mcp, grok_mcp,
}
use ai_config_selector.Intent.Mcp.{Server}
use ai_config_selector.Intent.Paths.{read_write}
use ai_config_selector.Launch.Exclusions.{PathExclusionIntent}
use ai_config_selector.Launch.Resolve.{PathGrantIntent}
use ai_config_selector.Launch.Runtime.{RuntimeAuthority, default_runtime_authority}
use ai_config_selector.Prelude.{
  not, ◌||◌, if◌then◌else◌, Option, none, some, List, [], ◌∷◌, ◌++◌, Result, ok, ◌>>◌, refuse_if,
}
use ai_config_selector.Prelude.Bytes.{Bytes, codes, bytes_eq}
use ai_config_selector.Prelude.Int.{ℤ, pos}

-- launch.Contribution, by the interfaces that it has: `none` and the empty list where it has not one of
-- them. SemanticFacts is a function of the overlay.
pub record Contribution : Type 0 where
  pub id : Bytes
  pub loopback_ports : Option (List ℤ)
  pub path_exclusions : List PathExclusionIntent
  pub material_origins : List Bytes
  pub path_grants : List PathGrantIntent
  pub executable_grants : List ExecutableGrantIntent
  pub environment : List EnvironmentIntent
  pub mcp_servers : Option (List Server)
  pub semantic_facts : Option (Bytes → Facts)

pub record Plan : Type 0 where
  pub contributions : List Contribution
  pub workspace_access : Bytes
  pub overlay : Bytes
  pub requirements : TargetRequirements
  pub auth_ref : Bytes
  pub auth_source : Bytes
  pub runtime_authority : RuntimeAuthority
  pub command_form : Bytes
  pub command_arguments : ℤ
  pub path_grant_intents : List PathGrantIntent
  pub path_exclusion_intents : List PathExclusionIntent
  pub material_origins : List Bytes
  pub executable_grant_intents : List ExecutableGrantIntent
  pub environment_intents : List EnvironmentIntent
  pub mcp_server_intents : List Server

-- for _, contribution := range contributions { intents = append(intents, contribution...) }
unfoldable pub gather {ℓ} : {A : Type ℓ} → (Contribution → List A) → List Contribution → List A
gather get [] = []
gather get (c ∷ cs) = get c ++ gather get cs

abbrev pub set_or {ℓ} : {A : Type ℓ} → A → Option A → A
set_or before none = before
set_or before (some a) = a

-- The value that the last contribution sets, from the value so far.
unfoldable pub last_set {ℓ} : {A : Type ℓ} → (Contribution → Option A) → A → List Contribution → A
last_set get before [] = before
last_set get before (c ∷ cs) = last_set get (set_or before (get c)) cs

-- The requirements where none are supplied.
abbrev pub default_requirements : Bytes → TargetRequirements
default_requirements overlay = record {
  recipe = if is_empty overlay then shell else devin;
  executable = [];
  executable_requirement_id = [];
  runtime_inputs = [];
  runtime_input_ids = [];
  existing_home_directory = [];
  protected_paths = [];
  protected_path_ids = [];
  semantics = no_semantics;
}

abbrev pub registered_semantics : Bytes → TargetSemantics
registered_semantics recipe =
    if bytes_eq recipe codex
    then codex_semantics
    else if bytes_eq recipe devin
    then devin_semantics
    else if bytes_eq recipe grok
    then grok_semantics
    else no_semantics

abbrev pub fill_semantics : Bytes → TargetSemantics → TargetSemantics
fill_semantics recipe semantics =
    if deep_equal semantics no_semantics then registered_semantics recipe else semantics

abbrev pub mcp_id : Bytes → Option Bytes
mcp_id recipe =
    if bytes_eq recipe codex
    then some codex_mcp
    else if bytes_eq recipe grok
    then some grok_mcp
    else none

abbrev pub select_servers : Option Bytes → TargetSemantics → TargetSemantics
select_servers none semantics = semantics
select_servers (some id) semantics = record semantics {
  configuration = select_mcp id semantics.configuration;
}

-- The semantics of the new plan, from the supplied ones and the servers selected.
unfoldable pub plan_semantics : Bytes → TargetSemantics → List Server → TargetSemantics
unfolding deep_equal devin_semantics codex_semantics grok_semantics select_mcp
plan_semantics recipe semantics servers =
    let filled = fill_semantics recipe semantics in
    if is_empty servers then filled else select_servers (mcp_id recipe) filled

abbrev pub requirements_of : Bytes → Option TargetRequirements → TargetRequirements
requirements_of overlay none = default_requirements overlay
requirements_of overlay (some requirements) = requirements

-- New, without the explanation, which is `explain` of the plan.
unfoldable pub new : List Contribution → Bytes → Bytes → Option TargetRequirements → Plan
unfolding gather last_set plan_semantics default_runtime_authority
new contributions workspace_access overlay supplied =
    let requirements = requirements_of overlay supplied in
    let servers = last_set (λ c. c.mcp_servers) [] contributions in
    record {
      contributions = contributions;
      workspace_access = workspace_access;
      overlay = overlay;
      requirements = record requirements {
        semantics = plan_semantics requirements.recipe requirements.semantics servers;
      };
      auth_ref = [];
      auth_source = [];
      runtime_authority = record default_runtime_authority {
        loopback_ports = last_set (λ c. c.loopback_ports) [] contributions;
      };
      command_form = [];
      command_arguments = pos 0;
      path_grant_intents = gather (λ c. c.path_grants) contributions;
      path_exclusion_intents = gather (λ c. c.path_exclusions) contributions;
      material_origins = gather (λ c. c.material_origins) contributions;
      executable_grant_intents = gather (λ c. c.executable_grants) contributions;
      environment_intents = gather (λ c. c.environment) contributions;
      mcp_server_intents = servers;
    }

-- The method WorkspaceAccess.
abbrev pub workspace_access : Plan → Bytes
workspace_access plan = if is_empty plan.workspace_access then read_write else plan.workspace_access

unfoldable pub with_auth_ref : Plan → Bytes → Plan
with_auth_ref plan value = record plan { auth_ref = value; auth_source = codes "overlay" }

unfoldable pub with_auth_override : Plan → Bytes → Plan
with_auth_override plan value = record plan {
  auth_ref = value;
  auth_source = codes "one_run_override";
}

pub data PlanError : Type 0 where
  needs_common_authority : PlanError

unfoldable pub for_command_intent : Plan → Bytes → ℤ → Result PlanError Plan
for_command_intent plan form argument_count = do
  refuse_if (not (bytes_eq plan.requirements.recipe shell) || not (is_empty plan.overlay))
      needs_common_authority
  ok (record plan {
    requirements = record (plan.requirements) { recipe = command };
    command_form = form;
    command_arguments = argument_count;
  })
