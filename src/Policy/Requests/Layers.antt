-- ===== src/Policy/Requests/Layers.antt =====
-- Where each field of the request for a fallback (policy.go) is from.
use agentwrap.Prelude.{
  String, ◌≡◌, refl, sym, subst, ap, ◌∙◌, Bool, not, Option, none, some, List, [], ◌∷◌, map, ◌||◌,
  arith, is_empty, is_none, is_zero_int, if◌then◌else◌,
}
use agentwrap.Errors.{StringMap}
use agentwrap.Contract.{is_default_action, PromptCacheDirective, enabled, RunRequest}
use agentwrap.Policy.Types.{FallbackAlternative, PolicyDecision}
use agentwrap.Policy.Requests.{
  pick, pick_duration, pick_map, pick_list, copy_list, pick_directive, overlay_run_request,
  overlay_option, elements, fallback_request,
}

-- The first value of the list that is set, or else the base's.
pub first {ℓ} : {A : Type ℓ} → (A → Bool) → List A → A → A
first unset [] base = base
first unset (x ∷ xs) base = let rest = first unset xs base in if unset x then rest else x

-- The texts of a request that a layer can set.
pub data TextField : Type 0 where
  work_dir_field : TextField
  session_id_field : TextField
  turn_id_field : TextField
  provider_field : TextField
  model_field : TextField
  permissions_field : TextField
  sandbox_field : TextField

pub text_of : TextField → RunRequest → String
text_of work_dir_field r = r.work_dir
text_of session_id_field r = r.session_id
text_of turn_id_field r = r.turn_id
text_of provider_field r = r.provider
text_of model_field r = r.model
text_of permissions_field r = r.permissions
text_of sandbox_field r = r.sandbox

-- The requests that are laid over the original one, the strongest first.
abbrev pub layers : PolicyDecision → FallbackAlternative → List RunRequest
layers d target = elim d.request [ none ↦ target.request ∷ [] | some r ↦ r ∷ target.request ∷ [] ]

-- The request takes from each layer what it sets and none above it does.
pub record IsLayered (original : RunRequest) (d : PolicyDecision) (target : FallbackAlternative)
    (next : RunRequest) : Type 0 where
  texts :
      (f : TextField)
      → text_of f next
        ≡ first is_empty (map (λ r. text_of f r) (layers d target)) (text_of f original)
  timeout :
      next.timeout ≡ first is_zero_int (map (λ r. r.timeout) (layers d target)) original.timeout
  metadata :
      next.metadata ≡ first is_none (map (λ r. r.metadata) (layers d target)) original.metadata
  want_session :
      next.want_session
      ≡ first not (map (λ r. r.want_session) (layers d target)) original.want_session
  session_action :
      next.session_action
      ≡ first is_default_action
          (d.session_action ∷ map (λ r. r.session_action) (layers d target))
          original.session_action
  require_caps :
      elements next.require_caps
      ≡ elements (first is_none (map (λ r. r.require_caps) (layers d target)) original.require_caps)
  require_health :
      elements next.require_health
      ≡ elements
          (first is_none (map (λ r. r.require_health) (layers d target)) original.require_health)
  prompt_cache :
      next.prompt_cache
      ≡ first
          (λ c. not (enabled c))
          (map (λ r. r.prompt_cache) (layers d target))
          original.prompt_cache
  prompt : next.prompt ≡ first is_empty (target.request.prompt ∷ []) original.prompt
  permission_policy : next.permission_policy ≡ original.permission_policy
  validation : next.validation ≡ original.validation

pick_map-first : (new old : StringMap) → pick_map new old ≡ (if is_none new then old else new)
unfolding pick_map
pick_map-first none old = refl
pick_map-first (some m) old = refl

elements-copy_list : (xs : List String) → elements (copy_list xs) ≡ xs
unfolding copy_list
elements-copy_list [] = refl
elements-copy_list (x ∷ xs) = refl

elements-pick_list :
    (new old old' : Option (List String))
    → elements old ≡ elements old'
    → elements (pick_list new old) ≡ elements (if is_none new then old' else new)
unfolding pick_list
elements-pick_list none old old' e = e
elements-pick_list (some xs) old old' e = elements-copy_list xs

pick_directive-first :
    (new old : PromptCacheDirective)
    → pick_directive new old ≡ (if not (enabled new) then old else new)
unfolding pick_directive
pick_directive-first new old = ground arith

or-first : (a b : Bool) → a || b ≡ (if not a then b else a)
or-first a b = ground arith

-- The decision carries no request.
target-IsLayered :
    (original : RunRequest) (d : PolicyDecision) (target : FallbackAlternative)
    → IsLayered original
        (record d { request = none })
        target
        (fallback_request original (record d { request = none }) target)
unfolding fallback_request overlay_option overlay_run_request pick pick_duration first text_of
target-IsLayered original d target =
    let t = target.request in
    record {
      texts = texts;
      timeout = refl;
      metadata = pick_map-first t.metadata original.metadata;
      want_session = or-first t.want_session original.want_session;
      session_action = refl;
      require_caps =
          elements-pick_list t.require_caps original.require_caps original.require_caps refl;
      require_health =
          elements-pick_list t.require_health original.require_health original.require_health refl;
      prompt_cache = pick_directive-first t.prompt_cache original.prompt_cache;
      prompt = refl;
      permission_policy = refl;
      validation = refl;
    }
  where
    texts :
        (f : TextField)
        → text_of f (fallback_request original (record d { request = none }) target)
          ≡ first is_empty
              (map (λ r. text_of f r) (layers (record d { request = none }) target))
              (text_of f original)
    texts work_dir_field = refl
    texts session_id_field = refl
    texts turn_id_field = refl
    texts provider_field = refl
    texts model_field = refl
    texts permissions_field = refl
    texts sandbox_field = refl

-- The decision carries a request.
both-IsLayered :
    (original : RunRequest) (d : PolicyDecision) (target : FallbackAlternative) (r : RunRequest)
    → IsLayered original
        (record d { request = some r })
        target
        (fallback_request original (record d { request = some r }) target)
unfolding fallback_request overlay_option overlay_run_request pick pick_duration first text_of
both-IsLayered original d target r =
    let t = target.request in
    record {
      texts = texts;
      timeout = refl;
      metadata =
          pick_map-first r.metadata (pick_map t.metadata original.metadata)
          ∙ ap (λ old. if is_none r.metadata then old else r.metadata)
              (pick_map-first t.metadata original.metadata);
      want_session =
          or-first r.want_session (t.want_session || original.want_session)
          ∙ ap (λ old. if not r.want_session then old else r.want_session)
              (or-first t.want_session original.want_session);
      session_action = refl;
      require_caps =
          elements-pick_list r.require_caps _ _
            (elements-pick_list t.require_caps original.require_caps original.require_caps refl);
      require_health = elements-pick_list r.require_health _ _ (
          elements-pick_list t.require_health original.require_health original.require_health refl);
      prompt_cache =
          pick_directive-first r.prompt_cache (pick_directive t.prompt_cache original.prompt_cache)
          ∙ ap (λ old. if not (enabled r.prompt_cache) then old else r.prompt_cache)
              (pick_directive-first t.prompt_cache original.prompt_cache);
      prompt = refl;
      permission_policy = refl;
      validation = refl;
    }
  where
    texts :
        (f : TextField)
        → text_of f (fallback_request original (record d { request = some r }) target)
          ≡ first is_empty
              (map (λ l. text_of f l) (layers (record d { request = some r }) target))
              (text_of f original)
    texts work_dir_field = refl
    texts session_id_field = refl
    texts turn_id_field = refl
    texts provider_field = refl
    texts model_field = refl
    texts permissions_field = refl
    texts sandbox_field = refl

-- The request for a fallback: each field that an overlay can set is that of the decision's request if
-- it is set there, else that of the target's request if it is set there, else that of the original
-- request. The decision's session action goes before these; the prompt is the target's if it has one,
-- else the original one; the permission policy and the validation are the original ones.
pub fallback_request-IsLayered :
    (original : RunRequest) (d : PolicyDecision) (target : FallbackAlternative)
    → IsLayered original d target (fallback_request original d target)
fallback_request-IsLayered original d target = by_request d.request refl
  where
    by_request :
        (over : Option RunRequest)
        → d.request ≡ over
        → IsLayered original d target (fallback_request original d target)
    by_request none e =
        subst
          (λ o.
            IsLayered original (record d { request = o }) target
              (fallback_request original (record d { request = o }) target))
          (sym e) (target-IsLayered original d target)
    by_request (some r) e =
        subst
          (λ o.
            IsLayered original (record d { request = o }) target
              (fallback_request original (record d { request = o }) target))
          (sym e) (both-IsLayered original d target r)
