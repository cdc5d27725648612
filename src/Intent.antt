-- ===== src/Intent.antt =====
-- The dependency-light schemas of the capabilities that a Profile selects: internal/pathintent,
-- internal/exclusionintent, internal/executableintent, internal/environmentintent,
-- internal/networkintent and internal/mcpintent.
pub mod Schema
pub mod Reference
pub mod Paths
pub mod Exclusions
pub mod Executables
pub mod Environment
pub mod Network
pub mod Mcp
