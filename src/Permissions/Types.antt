-- ===== src/Permissions/Types.antt =====
-- The types of permissions.go, and the summary of a policy.
use agentwrap.Prelude.{ℕ, String, Option, none, some, List, [], ◌∷◌, length, str_append}
use agentwrap.Errors.{StringMap}

-- `default` is the empty text, `other` any text that is none of the constants.
pub data PermissionAction : Type 0 where
  default allow deny ask : PermissionAction
  other : String → PermissionAction

abbrev pub PermissionTool : Type 0
PermissionTool = String

pub data PermissionUnsupportedBehavior : Type 0 where
  fail best_effort : PermissionUnsupportedBehavior
  other : String → PermissionUnsupportedBehavior

pub data PermissionEnforcement : Type 0 where
  native sdk_managed best_effort unsupported : PermissionEnforcement
  other : String → PermissionEnforcement

pub record PermissionPathRule : Type 0 where
  pub path : String
  pub action : PermissionAction

-- A map from tools to actions, as its entries in the order in which a `range` meets them; nil is
-- `none`.
abbrev pub PermissionToolMap : Type 0
PermissionToolMap = Option (List (PermissionTool × PermissionAction))

pub record PermissionPolicy : Type 0 where
  pub default : PermissionAction
  pub tools : PermissionToolMap
  pub path_rules : List PermissionPathRule
  pub unsupported_behavior : PermissionUnsupportedBehavior
  pub metadata : StringMap

pub record PermissionFeatureSupport : Type 0 where
  pub feature : String
  pub enforcement : PermissionEnforcement
  pub reason : String

pub record PermissionAudit : Type 0 where
  pub source : String
  pub tool : PermissionTool
  pub action : PermissionAction
  pub enforcement : PermissionEnforcement
  pub reason : String
  pub metadata : StringMap

pub record PermissionPolicySummary : Type 0 where
  pub id : String
  pub default : PermissionAction
  pub tools : PermissionToolMap
  pub path_rule_count : ℕ
  pub unsupported_behavior : PermissionUnsupportedBehavior
  pub metadata : StringMap

pub record PermissionMetadata : Type 0 where
  pub mode : String
  pub policy : PermissionPolicySummary
  pub policy_id : String
  pub support : List PermissionFeatureSupport
  pub audit : List PermissionAudit
  pub unsupported : List PermissionFeatureSupport

unfoldable pub copy_permission_tool_map : PermissionToolMap → PermissionToolMap
copy_permission_tool_map none = none
copy_permission_tool_map (some []) = none
copy_permission_tool_map (some (e ∷ es)) = some (e ∷ es)

-- What the summary takes from other packages and files: `encode` is encoding/json with a hash,
-- crypto/sha256 and encoding/hex (`none` where the encoding fails), `redact` is RedactStringMap.
module _ (encode : PermissionPolicySummary → Option String) (redact : StringMap → StringMap) where
  unfoldable pub stable_id : PermissionPolicySummary → String
  stable_id s = elim (encode (record s { id = "" })) [
    | none ↦ ""
    | some digest ↦ str_append "perm_" digest
  ]

  unfoldable pub summary : PermissionPolicy → PermissionPolicySummary
  unfolding stable_id copy_permission_tool_map
  summary p =
      let s : PermissionPolicySummary = record {
        id = "";
        default = p.default;
        tools = copy_permission_tool_map p.tools;
        path_rule_count = length p.path_rules;
        unsupported_behavior = p.unsupported_behavior;
        metadata = redact p.metadata;
      } in
      record s { id = stable_id s }
