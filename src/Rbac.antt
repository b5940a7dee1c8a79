-- ===== src/Rbac.antt =====
-- internal/rbac: which tools a set of entitlements allows.
pub mod Spec
mod Tests
use orbeat_community.Prelude.{
  String, Bool, true, false, not, ◌&&◌, ◌||◌, Option, none, some, List, [], ◌∷◌, ◌==◌, contains,
  if◌then◌else◌,
}
use orbeat_community.Prelude.Assoc.{Assoc, insert}

-- store.Entitlement, as far as the decisions read it. A nil AllowedTools, for "every tool", is none.
pub record Entitlement : Type 0 where
  pub mcp_server_id : String
  pub role_id : String
  pub allowed_tools : Option (List String)

-- VisibleServerIDs: a set is a map to the empty struct.
unfoldable pub collect_ids : Assoc (Unit {0}) → List Entitlement → Assoc (Unit {0})
collect_ids out [] = out
collect_ids out (e ∷ es) = collect_ids (insert e.mcp_server_id tt out) es

unfoldable pub visible_server_ids : List Entitlement → Assoc (Unit {0})
visible_server_ids ents = collect_ids [] ents

-- The tests of the loop's body.
abbrev pub lists_tool : Option (List String) → String → Bool
lists_tool none tool = true
lists_tool (some tools) tool = contains tools tool

unfoldable pub grants : Entitlement → String → String → Bool
grants e server_id tool = e.mcp_server_id == server_id && lists_tool e.allowed_tools tool

-- AuthorizingEntitlement: the first that grants the tool.
unfoldable pub authorizing_entitlement : List Entitlement → String → String → Option Entitlement
authorizing_entitlement [] server_id tool = none
authorizing_entitlement (e ∷ es) server_id tool =
    if grants e server_id tool then some e else authorizing_entitlement es server_id tool

abbrev pub is_some {ℓ} : {A : Type ℓ} → Option A → Bool
is_some none = false
is_some (some a) = true

unfoldable pub tool_allowed : List Entitlement → String → String → Bool
tool_allowed ents server_id tool = is_some (authorizing_entitlement ents server_id tool)

-- KeyToolAllowed: `narrow` is none where the key narrows nothing.
unfoldable pub key_tool_allowed : List Entitlement → Option (List String) → String → String → Bool
key_tool_allowed ents narrow server_id tool =
    tool_allowed ents server_id tool && lists_tool narrow tool
