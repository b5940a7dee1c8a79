-- ===== src/Text.antt =====
-- The text formats that the client and the server share: decimal numbers, uuids, slugs.
pub mod Decimal
pub mod Pattern
pub mod Uuid
pub mod Slug
