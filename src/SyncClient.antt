-- ===== src/SyncClient.antt =====
-- internal/syncclient: the client that keeps a developer's files in step with her entitlements.
pub mod Block
pub mod ManagedPath
pub mod Projects
pub mod Reconcile
pub mod Rules
