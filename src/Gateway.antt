-- ===== src/Gateway.antt =====
-- internal/gateway: how a tool call is authorised, inspected and forwarded.
mod Tests
pub mod Naming
pub mod Authorize
pub mod SessionCache
pub mod BuildSession
pub mod ToolCall
pub mod WithSession
