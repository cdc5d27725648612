-- ===== src/SessionOps.antt =====
-- internal/sessionops: the registry of the Sessions.
pub mod Ids
pub mod Walk
pub mod Paging
pub mod Registry
