-- ===== src/Tests/Release.antt =====
-- The parts of Release on concrete inputs.
mod Publication
