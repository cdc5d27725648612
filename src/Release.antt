-- ===== src/Release.antt =====
-- internal/release: what decides how a release is published.
pub mod Publication
