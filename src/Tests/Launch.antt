-- ===== src/Tests/Launch.antt =====
-- The parts of Launch on concrete inputs.
mod Grants
mod Resolve
mod Exclusions
