-- ===== src/Observe/Run/Artifacts/First.antt =====
-- Which artifacts mergeArtifacts (observability.go) keeps.
use agentwrap.Prelude.{String, Bool, true, false, List, [], ◌∷◌, str_eq, if◌then◌else◌}
use agentwrap.Contract.{ArtifactRef}
use agentwrap.Observe.Records.{RunRecord}
use agentwrap.Observe.Run.Artifacts.{with_producer_metadata}

-- The artifacts with the identity, in order.
unfoldable pub with_id : String → List ArtifactRef → List ArtifactRef
with_id id [] = []
with_id id (a ∷ artifacts) =
    let rest = with_id id artifacts in if str_eq a.id id then a ∷ rest else rest

-- The first of them, with its producer.
unfoldable pub first_of : RunRecord → List ArtifactRef → List ArtifactRef
first_of r [] = []
first_of r (a ∷ artifacts) = with_producer_metadata a r ∷ []

unless_seen : Bool → List ArtifactRef → List ArtifactRef
unless_seen true artifacts = []
unless_seen false artifacts = artifacts
