-- ===== src/Guards/Permission.antt =====
-- src/multi_bot_agentic/tool_permission.py: which tools each bot may call.
pub mod Granted
pub mod Checks
use multi_bot_agentic.Prelude.{
  String, Bool, true, false, ◌||◌, Option, none, some, List, [], ◌∷◌, contains, string_eq,
  if◌then◌else◌,
}
use multi_bot_agentic.Prelude.Dict.{Dict, lookup, insert, erase, get_or}
use multi_bot_agentic.Prelude.Sets.{add_member, remove_member}
use multi_bot_agentic.Exn.{Result, ok, err}
use multi_bot_agentic.Guards.{Outcome, require_id, with_id}

pub data ToolPermissionDecision : Type 0 where
  allowed denied : ToolPermissionDecision

pub record ToolPermissionResult : Type 0 where
  pub bot_id : String
  pub tool_name : String
  pub decision : ToolPermissionDecision
  pub reason : String

-- A set is the list of its members.
pub record ToolPermissionAllowlist : Type 0 where
  pub default_deny : Bool
  pub grants : Dict String (List String)

unfoldable pub init : Bool → ToolPermissionAllowlist
init default_deny = record { default_deny = default_deny; grants = [] }

-- A method body that first checks the two identifiers.
unfoldable pub with_ids :
    {A : Type 0}
    → ToolPermissionAllowlist
    → Result String
    → Result String
    → (String → String → Outcome ToolPermissionAllowlist A)
    → Outcome ToolPermissionAllowlist A
unfolding with_id
with_ids g bot tool body = with_id bot g λ bid. with_id tool g λ name. body bid name

unfoldable pub add_grant : ToolPermissionAllowlist → String → String → ToolPermissionAllowlist
unfolding insert add_member
add_grant g bid tool = record g {
  grants = insert bid (add_member tool (get_or bid [] g.grants)) g.grants;
}

unfoldable pub grant :
    ToolPermissionAllowlist → String → String → Outcome ToolPermissionAllowlist (Unit {0})
unfolding with_ids add_grant
grant g bot_id tool_name =
    with_ids g (require_id bot_id "bot_id") (require_id tool_name "tool_name")
      λ bid tool. (ok tt, add_grant g bid tool)

-- What a bot is left with: an empty set is deleted.
unfoldable pub set_grants : ToolPermissionAllowlist → String → List String → ToolPermissionAllowlist
unfolding insert erase
set_grants g bid [] = record g { grants = erase bid g.grants }
set_grants g bid (x ∷ xs) = record g { grants = insert bid (x ∷ xs) g.grants }

-- `revoke`, after the checks of the identifiers.
unfoldable pub revoke_from :
    ToolPermissionAllowlist → String → String → Outcome ToolPermissionAllowlist Bool
unfolding lookup set_grants remove_member
revoke_from g bid tool = elim (lookup bid g.grants) [
  | none ↦ (ok false, g)
  | some tools ↦
      if contains tool tools
      then (ok true, set_grants g bid (remove_member tool tools))
      else (ok false, g)
]

unfoldable pub revoke :
    ToolPermissionAllowlist → String → String → Outcome ToolPermissionAllowlist Bool
unfolding with_ids revoke_from
revoke g bot_id tool_name =
    with_ids g (require_id bot_id "bot_id") (require_id tool_name "tool_name") (revoke_from g)

-- `check`, after the checks of the identifiers, by the bot's set.
unfoldable pub decide : Bool → String → String → Option (List String) → ToolPermissionResult
decide default_deny bid tool none =
    if default_deny
    then record {
      bot_id = bid;
      tool_name = tool;
      decision = denied;
      reason = "default deny (no grants for bot)";
    }
    else record {
      bot_id = bid;
      tool_name = tool;
      decision = allowed;
      reason = "default allow (no grants recorded)";
    }
decide default_deny bid tool (some tools) =
    if contains tool tools
    then record { bot_id = bid; tool_name = tool; decision = allowed; reason = "explicit grant" }
    else record {
      bot_id = bid;
      tool_name = tool;
      decision = denied;
      reason = "tool not in bot allowlist";
    }

unfoldable pub check :
    ToolPermissionAllowlist → String → String → Outcome ToolPermissionAllowlist ToolPermissionResult
unfolding with_ids decide lookup
check g bot_id tool_name =
    with_ids g (require_id bot_id "bot_id") (require_id tool_name "tool_name")
      λ bid tool. (ok (decide g.default_deny bid tool (lookup bid g.grants)), g)

unfoldable pub grants_for :
    ToolPermissionAllowlist → String → Outcome ToolPermissionAllowlist (List String)
grants_for g bot_id = with_id (require_id bot_id "bot_id") g λ bid. (ok (get_or bid [] g.grants), g)
