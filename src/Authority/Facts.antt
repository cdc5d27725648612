-- ===== src/Authority/Facts.antt =====
-- internal/authority/plan.go: the facts of a plan, which its digest identifies.
use ai_config_selector.Prelude.{Bool, Option, List}
use ai_config_selector.Prelude.Bytes.{Bytes}
use ai_config_selector.Prelude.Int.{ℤ}

pub record FactSource : Type 0 where
  pub kind : Bytes
  pub id : Bytes
  pub version : ℤ

pub record SkillIdentity : Type 0 where
  pub source : Bytes
  pub relative_path : Bytes

pub record McpArgumentReference : Type 0 where
  pub kind : Bytes
  pub reference : Bytes

-- A nil slice and an empty one are the same list.
pub record FactValue : Type 0 where
  pub access : Bytes
  pub mode : Bytes
  pub logical_location : Bytes
  pub logical_reference : Bytes
  pub requirement_id : Bytes
  pub identity : Option SkillIdentity
  pub names : List Bytes
  pub count : Option ℤ
  pub destination : Bytes
  pub scope : Bytes
  pub source_kind : Bytes
  pub provider : Bytes
  pub classification : Bytes
  pub required : Option Bool
  pub mcp_arguments : List McpArgumentReference
  pub mcp_environment_references : List Bytes
  pub mcp_disabled_tools : List Bytes
  pub mcp_present : Bool

pub record Fact : Type 0 where
  pub id : Bytes
  pub kind : Bytes
  pub value : FactValue
  pub reason : Bytes
  pub source : FactSource

pub record Facts : Type 0 where
  pub requested : List Fact
  pub target_added : List Fact
  pub effective : List Fact
  pub unsupported : List Fact
