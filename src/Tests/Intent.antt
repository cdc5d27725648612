-- ===== src/Tests/Intent.antt =====
-- The schemas of the capabilities on small selections.
mod Paths
mod Exclusions
mod Executables
mod Environment
mod Network
mod Mcp
