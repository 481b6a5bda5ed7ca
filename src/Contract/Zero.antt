-- ===== src/Contract/Zero.antt =====
-- The zero values that Go gives to variables and to fields that a literal leaves out.
use agentwrap.Prelude.{pos, false, none, []}
use agentwrap.Dynamic.{no_fields}
use agentwrap.Permissions.Types.{
  PermissionAction, PermissionUnsupportedBehavior, PermissionMetadata,
}
use agentwrap.Contract.Session.{
  RunStatus, RuntimeContext, SessionAction, SessionRelationship, SessionMetadata, Usage,
  PromptCacheDirective, PromptCacheMetadata,
}
use agentwrap.Contract.Checks.{ValidationResult}
use agentwrap.Contract.Request.{RunRequest}
use agentwrap.Contract.Result.{
  RateLimitEntry, NativeMetadata, PolicyMetadata, RepairMetadata, RunMetadata, RunResult,
}

abbrev pub zero_context : RuntimeContext
zero_context = record { runtime_kind = ""; runtime_name = ""; provider = ""; model = "" }

abbrev pub zero_session : SessionMetadata
zero_session = record {
  id = "";
  requested_id = "";
  requested_action = SessionAction.default;
  relationship = SessionRelationship.none;
  retained = false;
  continued = false;
  forked_from = "";
  replaced = "";
  unsupported = [];
  unsupported_reason = "";
  best_effort = false;
}

abbrev pub zero_usage : Usage
zero_usage = record {
  input_tokens = none;
  output_tokens = none;
  total_tokens = none;
  reasoning_tokens = none;
  cache_read_tokens = none;
  cache_write_tokens = none;
  turns = none;
  native = no_fields;
}

abbrev pub zero_permissions : PermissionMetadata
zero_permissions = record {
  mode = "";
  policy = record {
    id = "";
    default = PermissionAction.default;
    tools = none;
    path_rule_count = 0;
    unsupported_behavior = PermissionUnsupportedBehavior.fail;
    metadata = none;
  };
  policy_id = "";
  support = [];
  audit = [];
  unsupported = [];
}

abbrev pub zero_validation : ValidationResult
zero_validation = record {
  passed = false;
  skipped = false;
  passed_count = 0;
  failed_count = 0;
  skipped_count = 0;
  checks = [];
  failures = [];
  errors = [];
  native = no_fields;
}

abbrev pub zero_directive : PromptCacheDirective
zero_directive = record {
  key = "";
  breakpoint_bytes = pos 0;
  prefix_sha256 = "";
  mode = "";
  require_native = false;
}

abbrev pub zero_request : RunRequest
zero_request = record {
  prompt = "";
  work_dir = "";
  session_id = "";
  turn_id = "";
  provider = "";
  model = "";
  permissions = "";
  permission_policy = none;
  sandbox = "";
  timeout = pos 0;
  metadata = none;
  want_session = false;
  session_action = SessionAction.default;
  require_caps = none;
  require_health = none;
  validation = none;
  prompt_cache = zero_directive;
}

abbrev pub zero_native : NativeMetadata
zero_native = record { rate_limit_info = RateLimitEntry.absent; rest = no_fields }

abbrev pub zero_policy : PolicyMetadata
zero_policy = record {
  logical_run_id = "";
  final_attempt = 0;
  final_target_index = pos 0;
  exhausted = false;
  exhausted_reason = "";
  decisions = [];
  dropped_events = [];
}

abbrev pub zero_repair : RepairMetadata
zero_repair = record {
  configured = false;
  attempted = false;
  max_attempts = pos 0;
  attempts = [];
  exhausted = false;
  exhausted_reason = "";
  permission_policy_id = "";
  permission_denied = false;
  unsupported_same_session = false;
}

abbrev pub zero_prompt_cache : PromptCacheMetadata
zero_prompt_cache = record {
  requested = false;
  key_sha256 = "";
  prefix_sha256 = "";
  breakpoint_bytes = pos 0;
  mode = "";
  transport = "";
  provider_managed = false;
  native_routing_key_applied = false;
  native_breakpoint_applied = false;
  prompt_bytes_preserved = false;
  detail = "";
}

abbrev pub zero_metadata : RunMetadata
zero_metadata = record {
  context = zero_context;
  parent_run_id = "";
  attempt = 0;
  attempts = [];
  policy = zero_policy;
  status = RunStatus.unset;
  started_at = 0;
  finished_at = 0;
  duration = pos 0;
  session = zero_session;
  permissions = zero_permissions;
  cleanup = record { attempted = false; completed = false; failed = false; error = none };
  validation = record { configured = false; final = zero_validation; history = [] };
  repair = zero_repair;
  prompt_cache = zero_prompt_cache;
  artifacts = [];
  warnings = [];
  errors = [];
  usage = zero_usage;
  estimated_cost = none;
  cost_source = "";
  throughput_tps = none;
  native_metadata = zero_native;
}

-- RunResult{}
abbrev pub zero_result : RunResult
zero_result = record {
  run_id = "";
  session_id = "";
  turn_id = "";
  status = RunStatus.unset;
  terminal_output = "";
  metadata = zero_metadata;
  artifacts = [];
  warnings = [];
  usage = zero_usage;
  started_at = 0;
  finished_at = 0;
  err = none;
}
