-- ===== src/Observe/Run/Artifacts.antt =====
-- The artifacts of an observed run (observability.go).
pub mod First
use agentwrap.Prelude.{
  String, Bool, true, false, ◌&&◌, ◌||◌, not, Option, none, some, List, [], ◌∷◌, ◌++◌, is_empty,
  str_eq, Table, insert, if◌then◌else◌,
}
use agentwrap.Errors.{StringMap}
use agentwrap.Contract.{ArtifactRef, RuntimeContext}
use agentwrap.Observe.Records.{RunRecord}

abbrev pub entries : StringMap → Table String
entries none = []
entries (some m) = m

put_unless_empty : String → String → Table String → Table String
unfolding insert
put_unless_empty key value m = if is_empty value then m else insert key value m

-- withProducerMetadata
unfoldable pub with_producer_metadata : ArtifactRef → RunRecord → ArtifactRef
unfolding put_unless_empty
with_producer_metadata artifact r = record artifact {
  metadata = some (
      put_unless_empty "producer_model" r.context.model (
        put_unless_empty "producer_provider" r.context.provider (
          put_unless_empty "producer_runtime_name" r.context.runtime_name (
            put_unless_empty "producer_runtime_kind" r.context.runtime_kind
              (put_unless_empty "producer_run_id" r.run_id (entries artifact.metadata))))));
}

-- seen[id]
unfoldable pub seen_id : String → List String → Bool
seen_id id [] = false
seen_id id (j ∷ js) = str_eq j id || seen_id id js

abbrev now_seen : String → List String → List String
now_seen id seen = if is_empty id then seen else id ∷ seen

-- The loop of mergeArtifacts.
unfoldable pub merge_from : RunRecord → List String → List ArtifactRef → List ArtifactRef
unfolding seen_id with_producer_metadata
merge_from r seen [] = []
merge_from r seen (a ∷ artifacts) =
    let rest = merge_from r seen artifacts in
    let others = merge_from r (now_seen a.id seen) artifacts in
    if not (is_empty a.id) && seen_id a.id seen then rest else with_producer_metadata a r ∷ others

unfoldable pub merge_artifacts :
    List ArtifactRef → List ArtifactRef → List ArtifactRef → RunRecord → List ArtifactRef
unfolding merge_from
merge_artifacts existing result metadata r = merge_from r [] (existing ++ result ++ metadata)
