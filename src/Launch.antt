-- ===== src/Launch.antt =====
-- internal/launch: which paths a Session is granted.
pub mod Paths
pub mod Grants
pub mod Host
pub mod Resolve
pub mod Exclusions
pub mod Runtime
pub mod Revalidate
