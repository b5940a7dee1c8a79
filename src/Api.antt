-- ===== src/Api.antt =====
-- internal/api: what the sync endpoints and the admin handlers decide.
mod Tests
pub mod Pins
pub mod Precondition
pub mod SyncList
