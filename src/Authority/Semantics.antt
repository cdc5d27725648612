-- ===== src/Authority/Semantics.antt =====
-- internal/authority/plan.go: the recipes of the targets, and the semantics registered with them. An
-- empty slice is nil here, as Clone leaves it, so that DeepEqual is equality of the lists.
pub mod Supported
use ai_config_selector.Prelude.{
  ◌≡◌, ◌↔◌, refl, arith, Bool, true, false, not, ◌&&◌, ◌||◌, if◌then◌else◌, Option, none, some,
  List, [], ◌∷◌,
}
use ai_config_selector.Prelude.Bytes.{Bytes, codes, bytes_eq}
use ai_config_selector.Prelude.Int.{ℤ, pos}
use native.Mathlib.Decide.{ℕ_discrete}

abbrev pub shell : Bytes
shell = codes "shell"

abbrev pub devin : Bytes
devin = codes "devin"

abbrev pub codex : Bytes
codex = codes "codex"

abbrev pub grok : Bytes
grok = codes "grok"

abbrev pub command : Bytes
command = codes "command"

pub record ConfigurationDecision : Type 0 where
  pub id : Bytes
  pub mode : Bytes

pub record InheritanceRule : Type 0 where
  pub id : Bytes
  pub logical_roots : List Bytes

pub record TargetSemantics : Type 0 where
  pub version : ℤ
  pub authentication_mode : Bytes
  pub configuration : List ConfigurationDecision
  pub preflights : List ConfigurationDecision
  pub unsupported : List ConfigurationDecision
  pub inheritance : List InheritanceRule
  pub credential_projection : Bytes

abbrev pub decides : Bytes → Bytes → ConfigurationDecision
decides id mode = record { id = id; mode = mode }

-- TargetSemantics{}
abbrev pub no_semantics : TargetSemantics
no_semantics = record {
  version = pos 0;
  authentication_mode = [];
  configuration = [];
  preflights = [];
  unsupported = [];
  inheritance = [];
  credential_projection = [];
}

unfoldable pub devin_semantics : TargetSemantics
devin_semantics = record {
  version = pos 1;
  authentication_mode = [];
  configuration = [];
  preflights =
      decides (codes "devin.preflight.skills") (codes "contained-exact-catalog")
      ∷ decides (codes "devin.preflight.rules") (codes "contained-selected-rules")
      ∷ decides (codes "devin.preflight.authentication") (codes "contained-status")
      ∷ [];
  unsupported = [];
  inheritance =
      record {
        id = codes "devin.project-skills";
        logical_roots = codes ".devin/skills" ∷ codes ".agents/skills" ∷ [];
      }
      ∷ record {
        id = codes "devin.project-instructions";
        logical_roots = codes "AGENTS.md" ∷ codes ".devin/rules" ∷ [];
      }
      ∷ [];
  credential_projection = codes "optional-allowlisted-value-omitted";
}

unfoldable pub grok_semantics : TargetSemantics
grok_semantics = record {
  version = pos 1;
  authentication_mode = [];
  configuration =
      decides (codes "grok.auto-update") (codes "disabled")
      ∷ decides (codes "grok.compat") (codes "disabled")
      ∷ decides (codes "grok.folder-trust") (codes "untrusted-project-scope")
      ∷ decides (codes "grok.mcp") (codes "disabled")
      ∷ decides (codes "grok.plugins") (codes "disabled")
      ∷ decides (codes "grok.sandbox") (codes "off-under-acs")
      ∷ [];
  preflights = decides (codes "grok.preflight.version") (codes "contained-exact-version") ∷ [];
  unsupported =
      decides (codes "grok.global-auth-fallback") (codes "disabled")
      ∷ decides (codes "grok.host-managed-config") (codes "not-imported")
      ∷ decides (codes "grok.target-sandbox-enforcement") (codes "disabled-under-acs")
      ∷ [];
  inheritance =
      record { id = codes "grok.project-skills"; logical_roots = codes ".grok/skills" ∷ [] }
      ∷ record {
        id = codes "grok.project-instructions";
        logical_roots = codes "AGENTS.md" ∷ codes ".grok/rules" ∷ [];
      }
      ∷ [];
  credential_projection = codes "optional-allowlisted-value-omitted";
}

unfoldable pub codex_semantics : TargetSemantics
codex_semantics = record {
  version = pos 1;
  authentication_mode = codes "required-value-omitted";
  configuration =
      decides (codes "codex.approval") (codes "never")
      ∷ decides (codes "codex.apps") (codes "disabled")
      ∷ decides (codes "codex.auth-storage") (codes "file-in-session")
      ∷ decides (codes "codex.endpoint") (codes "chatgpt-backend-api")
      ∷ decides (codes "codex.login") (codes "chatgpt")
      ∷ decides (codes "codex.mcp") (codes "disabled")
      ∷ decides (codes "codex.plugins") (codes "disabled")
      ∷ decides (codes "codex.project-trust") (codes "untrusted")
      ∷ decides (codes "codex.provider") (codes "openai")
      ∷ decides (codes "codex.sandbox") (codes "danger-full-access-under-acs")
      ∷ [];
  preflights = [];
  unsupported =
      decides (codes "codex.global-auth-fallback") (codes "disabled")
      ∷ decides (codes "codex.target-approval-prompts") (codes "disabled")
      ∷ decides (codes "codex.target-sandbox-enforcement") (codes "disabled-under-acs")
      ∷ [];
  inheritance = [];
  credential_projection = codes "required-named-auth-to-session-file-value-omitted";
}

abbrev pub selected_stdio : Bytes
selected_stdio = codes "selected-session-stdio"

abbrev pub disabled : Bytes
disabled = codes "disabled"

-- The loop of supportsSelectedMCP: the configuration with the selected mode taken back, and `found`.
abbrev pub is_selected : Bytes → ConfigurationDecision → Bool
is_selected id d = bytes_eq d.id id && bytes_eq d.mode selected_stdio

unfoldable pub deselect : Bytes → List ConfigurationDecision → List ConfigurationDecision
deselect id [] = []
deselect id (d ∷ ds) =
    (if is_selected id d then record d { mode = disabled } else d) ∷ deselect id ds

unfoldable pub found_selected : Bytes → List ConfigurationDecision → Bool
found_selected id [] = false
found_selected id (d ∷ ds) = is_selected id d || found_selected id ds

-- The loop of New over the configuration, where MCP servers are selected.
unfoldable pub select_mcp : Bytes → List ConfigurationDecision → List ConfigurationDecision
select_mcp id [] = []
select_mcp id (d ∷ ds) =
    (if bytes_eq d.id id then record d { mode = selected_stdio } else d) ∷ select_mcp id ds

-- reflect.DeepEqual
int_discrete : Discrete ℤ
int_discrete = hlevel ℕ_discrete

decision_discrete : Discrete ConfigurationDecision
decision_discrete = hlevel ℕ_discrete

rule_discrete : Discrete InheritanceRule
rule_discrete = hlevel ℕ_discrete

semantics_discrete : Discrete TargetSemantics
semantics_discrete = hlevel (ℕ_discrete, int_discrete, decision_discrete, rule_discrete)

unfoldable pub deep_equal : TargetSemantics → TargetSemantics → Bool
unfolding int_discrete decision_discrete rule_discrete semantics_discrete ℕ_discrete
deep_equal v w = elim (semantics_discrete v w) [ yes e ↦ true | no n ↦ false ]

pub deep_equal_iff : (v w : TargetSemantics) → (deep_equal v w ≡ true) ↔ (v ≡ w)
unfolding deep_equal
deep_equal_iff v w = ground arith

-- supportsSelectedMCP
unfoldable pub supports_selected_mcp : TargetSemantics → TargetSemantics → Bytes → Bool
unfolding deep_equal
supports_selected_mcp value baseline id =
    deep_equal value baseline
    || (found_selected id value.configuration
        && deep_equal (record value { configuration = deselect id value.configuration }) baseline)

abbrev pub codex_mcp : Bytes
codex_mcp = codes "codex.mcp"

abbrev pub grok_mcp : Bytes
grok_mcp = codes "grok.mcp"

-- TargetSemantics.Supports
unfoldable pub supports : TargetSemantics → Bytes → Bool
unfolding deep_equal supports_selected_mcp devin_semantics codex_semantics grok_semantics
supports value recipe =
    if bytes_eq recipe devin
    then deep_equal value devin_semantics
    else if bytes_eq recipe codex
    then supports_selected_mcp value codex_semantics codex_mcp
    else if bytes_eq recipe grok
    then supports_selected_mcp value grok_semantics grok_mcp
    else deep_equal value no_semantics
