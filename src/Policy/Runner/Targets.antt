-- ===== src/Policy/Runner/Targets.antt =====
-- The targets of a policy run (policy.go): which runtime and alternative an index stands for.
use agentwrap.Prelude.{ℕ, zero, suc, ℤ, pos, negsuc, Option, none, some, List, [], ◌∷◌, get_elem?}
use agentwrap.Dynamic.{no_fields}
use agentwrap.Contract.{Handle, zero_request, zero_context}
use agentwrap.Policy.Types.{FallbackAlternative, PolicyDecision}
use agentwrap.Policy.Runner.State.{PolicyRun}

-- FallbackAlternative{}
abbrev pub zero_alternative : FallbackAlternative
zero_alternative = record {
  name = "";
  runtime = none;
  request = zero_request;
  context = zero_context;
  metadata = no_fields;
}

-- The alternative at an index above 0 and within the list.
abbrev pub alternative_at : List FallbackAlternative → ℤ → Option FallbackAlternative
alternative_at xs (pos zero) = none
alternative_at xs (pos (suc i)) = get_elem? xs i
alternative_at xs (negsuc i) = none

abbrev runtime_or : Handle → Option FallbackAlternative → Handle
runtime_or primary none = primary
runtime_or primary (some a) = elim a.runtime [ none ↦ primary | some h ↦ h ]

-- runtimeFor
unfoldable pub runtime_for : PolicyRun → ℤ → Handle
runtime_for r index = runtime_or r.primary (alternative_at r.alternatives index)

abbrev target_or : FallbackAlternative → Option FallbackAlternative → FallbackAlternative
target_or a none = a
target_or a (some b) = b

-- targetFor
unfoldable pub target_for : PolicyRun → ℤ → FallbackAlternative
target_for r index =
    target_or (record zero_alternative { runtime = some r.primary; request = r.original })
      (alternative_at r.alternatives index)

-- The loop of applyDecisionTarget, and its store.
unfoldable pub store_at :
    List FallbackAlternative → ℕ → FallbackAlternative → List FallbackAlternative
store_at [] zero a = a ∷ []
store_at [] (suc i) a = zero_alternative ∷ store_at [] i a
store_at (x ∷ xs) zero a = a ∷ xs
store_at (x ∷ xs) (suc i) a = x ∷ store_at xs i a

abbrev pub stored :
    List FallbackAlternative → ℤ → Option FallbackAlternative → List FallbackAlternative
stored xs index none = xs
stored xs (pos zero) (some a) = xs
stored xs (pos (suc i)) (some a) = store_at xs i a
stored xs (negsuc i) (some a) = xs

-- applyDecisionTarget
unfoldable pub apply_decision_target : PolicyRun → PolicyDecision → PolicyRun
apply_decision_target r d = record r {
  alternatives = stored r.alternatives d.target_index d.target;
}
