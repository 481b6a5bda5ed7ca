-- ===== src/Examples/Permission.antt =====
-- Permission policies, valid and not.
use agentwrap.Prelude.{String, ◌≡◌, ◌↔◌, none, some, [], ◌∷◌}
use agentwrap.Permissions.Types.{PermissionAction, PermissionUnsupportedBehavior, PermissionPolicy}
use agentwrap.Permissions.Validate.{
  validate_permission_policy, IsWellFormed, IsConfigFault, validate_permission_policy_exact,
  validate_permission_policy-IsConfigFault,
}

abbrev guarded_shell : PermissionPolicy
guarded_shell = record {
  default = PermissionAction.ask;
  tools = some (("shell", PermissionAction.deny) ∷ ("read", PermissionAction.allow) ∷ []);
  path_rules = record { path = "/etc/*"; action = PermissionAction.deny } ∷ [];
  unsupported_behavior = PermissionUnsupportedBehavior.fail;
  metadata = none;
}

abbrev quoted : String → String
quoted s = s

validate_permission_policy_exact_example :
    validate_permission_policy quoted (some guarded_shell) ≡ none ↔ IsWellFormed guarded_shell
validate_permission_policy_exact_example = validate_permission_policy_exact quoted guarded_shell

validate_permission_policy-IsConfigFault_example : IsConfigFault (
    validate_permission_policy quoted
      (some (record guarded_shell { default = PermissionAction.other "maybe" })))
validate_permission_policy-IsConfigFault_example =
    validate_permission_policy-IsConfigFault quoted
      (some (record guarded_shell { default = PermissionAction.other "maybe" }))
