-- ===== src/Permissions/Validate.antt =====
-- ValidatePermissionPolicy of permissions.go, and what it accepts.
use agentwrap.Prelude.{
  String, ◌≡◌, refl, ◌↔◌, false, Option, none, some, List, [], ◌∷◌, arith, is_empty, str_append,
  if◌then◌else◌,
}
use agentwrap.Errors.{SdkError, ErrorCategory, new_error}
use agentwrap.Permissions.Types.{
  PermissionAction, default, PermissionTool, PermissionUnsupportedBehavior, PermissionPathRule,
  PermissionPolicy,
}

permission_config_error : String → SdkError
permission_config_error detail =
    new_error ErrorCategory.configuration "permission policy" detail none []

validate_permission_action : PermissionAction → String → Option SdkError
validate_permission_action (PermissionAction.other s) field =
    some (permission_config_error (str_append field " must be default, allow, deny, or ask"))
validate_permission_action _ field = none

-- The first of the loop's errors, in the order of the entries.
validate_tools : List (PermissionTool × PermissionAction) → Option SdkError
validate_tools [] = none
validate_tools ((tool, action) ∷ rest) =
    if is_empty tool
    then some (permission_config_error "permission tool cannot be empty")
    else elim (validate_permission_action action (str_append "permission action for " tool)) [
      | some e ↦ some e
      | none ↦ validate_tools rest
    ]

validate_path_rules : List PermissionPathRule → Option SdkError
validate_path_rules [] = none
validate_path_rules (rule ∷ rest) =
    if is_empty rule.path
    then some (permission_config_error "permission path rule cannot have an empty path")
    else elim (validate_permission_action rule.action
        (str_append "permission path rule for " rule.path)) [
          | some e ↦ some e
          | none ↦ validate_path_rules rest
        ]

-- `quote` prints a text as `%q` does.
validate_unsupported_behavior : (String → String) → PermissionUnsupportedBehavior → Option SdkError
validate_unsupported_behavior quote (PermissionUnsupportedBehavior.other s) =
    some
      (permission_config_error (str_append "unsupported permission fallback behavior " (quote s)))
validate_unsupported_behavior quote _ = none

abbrev pub tool_entries :
    Option (List (PermissionTool × PermissionAction)) → List (PermissionTool × PermissionAction)
tool_entries none = []
tool_entries (some es) = es

-- Each check's error is returned at once.
first_error : Option SdkError → Option SdkError → Option SdkError
first_error (some e) _ = some e
first_error none next = next

pub validate_permission_policy : (String → String) → Option PermissionPolicy → Option SdkError
validate_permission_policy quote none = none
validate_permission_policy quote (some p) =
    first_error (validate_permission_action p.default "default permission action") (
      first_error (validate_tools (tool_entries p.tools)) (
        first_error (validate_path_rules p.path_rules)
          (validate_unsupported_behavior quote p.unsupported_behavior)))

abbrev pub IsKnownAction : PermissionAction → Type 0
IsKnownAction (PermissionAction.other s) = ⊥
IsKnownAction _ = Unit {0}

abbrev pub AreKnownTools : List (PermissionTool × PermissionAction) → Type 0
AreKnownTools [] = Unit {0}
AreKnownTools ((tool, action) ∷ rest) =
    (is_empty tool ≡ false) × IsKnownAction action × AreKnownTools rest

abbrev pub AreKnownRules : List PermissionPathRule → Type 0
AreKnownRules [] = Unit {0}
AreKnownRules (rule ∷ rest) =
    (is_empty rule.path ≡ false) × IsKnownAction rule.action × AreKnownRules rest

abbrev pub IsKnownBehavior : PermissionUnsupportedBehavior → Type 0
IsKnownBehavior (PermissionUnsupportedBehavior.other s) = ⊥
IsKnownBehavior _ = Unit {0}

pub record IsWellFormed (p : PermissionPolicy) : Type 0 where
  pub default_known : IsKnownAction p.default
  pub tools_known : AreKnownTools (tool_entries p.tools)
  pub rules_known : AreKnownRules p.path_rules
  pub behavior_known : IsKnownBehavior p.unsupported_behavior

action_sound :
    (a : PermissionAction) (f : String) → validate_permission_action a f ≡ none ↔ IsKnownAction a
unfolding validate_permission_action
action_sound default f = (λ _. tt, λ _. refl)
action_sound (PermissionAction.other s) f = (λ h. ground arith, λ h. absurd h)
action_sound _ f = (λ _. tt, λ _. refl)

behavior_sound :
    (quote : String → String) (b : PermissionUnsupportedBehavior)
    → validate_unsupported_behavior quote b ≡ none ↔ IsKnownBehavior b
unfolding validate_unsupported_behavior
behavior_sound quote PermissionUnsupportedBehavior.fail = (λ _. tt, λ _. refl)
behavior_sound quote (PermissionUnsupportedBehavior.other s) = (λ h. ground arith, λ h. absurd h)
behavior_sound quote _ = (λ _. tt, λ _. refl)

tools_sound :
    (es : List (PermissionTool × PermissionAction)) → validate_tools es ≡ none ↔ AreKnownTools es
unfolding validate_tools
tools_sound [] = (λ _. tt, λ _. refl)
tools_sound ((tool, action) ∷ rest) = (
  λ h.
      ground
        (arith, tools_sound rest, action_sound action (str_append "permission action for " tool)),
  λ h.
      ground
        (arith, tools_sound rest, action_sound action (str_append "permission action for " tool)),
)

path_rules_sound : (rs : List PermissionPathRule) → validate_path_rules rs ≡ none ↔ AreKnownRules rs
unfolding validate_path_rules
path_rules_sound [] = (λ _. tt, λ _. refl)
path_rules_sound (rule ∷ rest) = (
  λ h. ground (
    arith,
    path_rules_sound rest,
    action_sound rule.action (str_append "permission path rule for " rule.path),
  ),
  λ h. ground (
    arith,
    path_rules_sound rest,
    action_sound rule.action (str_append "permission path rule for " rule.path),
  ),
)

-- A policy passes validation exactly when its default, each tool's action and each path rule's
-- action are one of default, allow, deny and ask, no tool and no path is empty, and its behaviour on
-- unsupported features is one of the two known.
pub validate_permission_policy_exact :
    (quote : String → String) (p : PermissionPolicy)
    → validate_permission_policy quote (some p) ≡ none ↔ IsWellFormed p
unfolding validate_permission_policy first_error
validate_permission_policy_exact quote p = (
  λ h. record {
    default_known = (action_sound p.default "default permission action").0 (ground arith);
    tools_known = (tools_sound (tool_entries p.tools)).0 (ground arith);
    rules_known = (path_rules_sound p.path_rules).0 (ground arith);
    behavior_known = (behavior_sound quote p.unsupported_behavior).0 (ground arith);
  },
  λ w. ground (
    arith,
    (action_sound p.default "default permission action").1 w.default_known,
    (tools_sound (tool_entries p.tools)).1 w.tools_known,
    (path_rules_sound p.path_rules).1 w.rules_known,
    (behavior_sound quote p.unsupported_behavior).1 w.behavior_known,
  ),
)

-- An error, if there is one, that the caller's configuration is to blame for.
abbrev pub IsConfigFault : Option SdkError → Type 0
IsConfigFault none = Unit {0}
IsConfigFault (some e) =
    (e.category ≡ ErrorCategory.configuration) × (e.operation ≡ "permission policy")

action-IsConfigFault :
    (a : PermissionAction) (f : String) → IsConfigFault (validate_permission_action a f)
unfolding validate_permission_action permission_config_error new_error
action-IsConfigFault default f = tt
action-IsConfigFault (PermissionAction.other s) f = (refl, refl)
action-IsConfigFault _ f = tt

tools-IsConfigFault :
    (es : List (PermissionTool × PermissionAction)) → IsConfigFault (validate_tools es)
unfolding validate_tools permission_config_error new_error
tools-IsConfigFault [] = tt
tools-IsConfigFault ((tool, action) ∷ rest) = ground (
  arith,
  tools-IsConfigFault rest,
  action-IsConfigFault action (str_append "permission action for " tool),
)

path_rules-IsConfigFault : (rs : List PermissionPathRule) → IsConfigFault (validate_path_rules rs)
unfolding validate_path_rules permission_config_error new_error
path_rules-IsConfigFault [] = tt
path_rules-IsConfigFault (rule ∷ rest) = ground (
  arith,
  path_rules-IsConfigFault rest,
  action-IsConfigFault rule.action (str_append "permission path rule for " rule.path),
)

behavior-IsConfigFault :
    (quote : String → String) (b : PermissionUnsupportedBehavior)
    → IsConfigFault (validate_unsupported_behavior quote b)
unfolding validate_unsupported_behavior permission_config_error new_error
behavior-IsConfigFault quote PermissionUnsupportedBehavior.fail = tt
behavior-IsConfigFault quote (PermissionUnsupportedBehavior.other s) = (refl, refl)
behavior-IsConfigFault quote _ = tt

first_error-IsConfigFault :
    (a b : Option SdkError) → IsConfigFault a → IsConfigFault b → IsConfigFault (first_error a b)
unfolding first_error
first_error-IsConfigFault none b ha hb = hb
first_error-IsConfigFault (some e) b ha hb = ha

-- Whatever the policy, its error, if it has one, is a configuration error of the operation
-- "permission policy".
pub validate_permission_policy-IsConfigFault :
    (quote : String → String) (policy : Option PermissionPolicy)
    → IsConfigFault (validate_permission_policy quote policy)
unfolding validate_permission_policy
validate_permission_policy-IsConfigFault quote none = tt
validate_permission_policy-IsConfigFault quote (some p) =
    first_error-IsConfigFault _ _ (action-IsConfigFault p.default _) (
      first_error-IsConfigFault _ _ (tools-IsConfigFault (tool_entries p.tools)) (
        first_error-IsConfigFault _ _ (path_rules-IsConfigFault p.path_rules)
          (behavior-IsConfigFault quote p.unsupported_behavior)))
