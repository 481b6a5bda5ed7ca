-- ===== src/Policy/Requests.antt =====
-- The requests of the next attempt, and the request facts that an attempt records (policy.go).
pub mod Layers
use Prim.Native.String.{compare}
use Prim.Native.Nat.{Ordering}
use agentwrap.Prelude.{
  String, ◌≡◌, refl, Bool, Option, none, some, List, [], ◌∷◌, map, ◌||◌, arith, is_empty,
  is_zero_int, Duration, if◌then◌else◌,
}
use agentwrap.Errors.{StringMap}
use agentwrap.Contract.{
  SessionAction, is_default_action, PromptCacheDirective, enabled, RunRequest, AttemptRequest,
  PolicyDecisionKind, zero_request,
}
use agentwrap.Policy.Types.{FallbackAlternative, PolicyContext, PolicyDecision}

abbrev pub or_kind : PolicyDecisionKind → PolicyDecisionKind
or_kind PolicyDecisionKind.unset = PolicyDecisionKind.stop
or_kind k = k

abbrev pub or_info {ℓ} : {A : Type ℓ} → Option A → Option A → Option A
or_info none fallback = fallback
or_info (some a) fallback = some a

-- normalizeDecision; its last test stores what is there already, as the default is the empty text.
unfoldable pub normalize_decision : PolicyDecision → PolicyContext → PolicyDecision
normalize_decision d c = record d {
  kind = or_kind d.kind;
  rate_limit = or_info d.rate_limit c.rate_limit;
}

abbrev pick_action : SessionAction → SessionAction → SessionAction
pick_action a old = if is_default_action a then old else a

-- requestForDecision
unfoldable pub request_for_decision : RunRequest → PolicyDecision → RunRequest
request_for_decision current d = elim d.request [
  | none ↦ record current { session_action = pick_action d.session_action current.session_action }
  | some r ↦ record r { session_action = pick_action d.session_action r.session_action }
]

-- The new text unless it is empty.
pick : String → String → String
pick new old = if is_empty new then old else new

pick_duration : Duration → Duration → Duration
pick_duration new old = if is_zero_int new then old else new

pick_map : StringMap → StringMap → StringMap
pick_map none old = old
pick_map (some m) old = some m

-- `append([]T(nil), s...)` is nil where `s` has no element.
copy_list : List String → Option (List String)
copy_list [] = none
copy_list (x ∷ xs) = some (x ∷ xs)

pick_list : Option (List String) → Option (List String) → Option (List String)
pick_list none old = old
pick_list (some xs) old = copy_list xs

pick_directive : PromptCacheDirective → PromptCacheDirective → PromptCacheDirective
pick_directive new old = if enabled new then new else old

-- overlayRunRequest
pub overlay_run_request : RunRequest → RunRequest → RunRequest
overlay_run_request dst src = record dst {
  work_dir = pick src.work_dir dst.work_dir;
  session_id = pick src.session_id dst.session_id;
  turn_id = pick src.turn_id dst.turn_id;
  provider = pick src.provider dst.provider;
  model = pick src.model dst.model;
  permissions = pick src.permissions dst.permissions;
  sandbox = pick src.sandbox dst.sandbox;
  timeout = pick_duration src.timeout dst.timeout;
  metadata = pick_map src.metadata dst.metadata;
  want_session = src.want_session || dst.want_session;
  session_action = pick_action src.session_action dst.session_action;
  require_caps = pick_list src.require_caps dst.require_caps;
  require_health = pick_list src.require_health dst.require_health;
  prompt_cache = pick_directive src.prompt_cache dst.prompt_cache;
}

overlay_option : RunRequest → Option RunRequest → RunRequest
unfolding overlay_run_request
overlay_option dst none = dst
overlay_option dst (some src) = overlay_run_request dst src

-- fallbackRequest
pub fallback_request : RunRequest → PolicyDecision → FallbackAlternative → RunRequest
unfolding overlay_option pick
fallback_request original d target =
    let prompted = record original { prompt = pick target.request.prompt original.prompt } in
    let next = overlay_option (overlay_run_request prompted target.request) d.request in
    record next { session_action = pick_action d.session_action next.session_action }

-- sort.Strings, by the order of the bytes.
insert_key : String → List String → List String
insert_key k [] = k ∷ []
insert_key k (j ∷ js) = elim (compare k j) [ Ordering.gt ↦ j ∷ insert_key k js | _ ↦ k ∷ j ∷ js ]

unfoldable pub sort_keys : List String → List String
unfolding insert_key
sort_keys [] = []
sort_keys (k ∷ ks) = insert_key k (sort_keys ks)

sorted_keys : StringMap → List String
unfolding sort_keys
sorted_keys none = []
sorted_keys (some m) = sort_keys (map (λ e. e.0) m)

abbrev elements : Option (List String) → List String
elements none = []
elements (some xs) = xs

-- attemptRequest
unfoldable pub attempt_request : RunRequest → AttemptRequest
unfolding sorted_keys
attempt_request r = record {
  work_dir = r.work_dir;
  session_id = r.session_id;
  provider = r.provider;
  model = r.model;
  permissions = r.permissions;
  sandbox = r.sandbox;
  timeout = r.timeout;
  want_session = r.want_session;
  session_action = r.session_action;
  require_caps = elements r.require_caps;
  require_health = elements r.require_health;
  metadata_keys = sorted_keys r.metadata;
  prompt_cache = enabled r.prompt_cache;
}
