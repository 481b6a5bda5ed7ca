-- ===== src/Observe/Run/Record/Counts.antt =====
-- What events and failures do to the counts of a record (observability.go).
use agentwrap.Prelude.{
  ℕ, suc, Time, String, ◌≡◌, refl, ◌∙◌, Bool, true, false, Option, none, some, if◌then◌else◌,
}
use agentwrap.Errors.{GoError}
use agentwrap.Dynamic.{Any}
use agentwrap.Contract.{RunStatus, Usage, ArtifactRef}
use agentwrap.Observe.Records.{RunRecord, RunEventRecord}
use agentwrap.Observe.Run.Record.{
  with_status, with_fatal, with_usage, with_artifact, apply_event, record_failure,
}

-- The two counts of a record.
abbrev pub counts : RunRecord → ℕ × ℕ
counts r = (r.event_count, r.dropped_event_count)

counts-if :
    (b : Bool) (x y : RunRecord) (n : ℕ × ℕ)
    → counts x ≡ n
    → counts y ≡ n
    → counts (if b then x else y) ≡ n
counts-if true x y n ex ey = ex
counts-if false x y n ex ey = ey

counts-with_status : (s : Option RunStatus) (r : RunRecord) → counts (with_status s r) ≡ counts r
unfolding with_status
counts-with_status none r = refl
counts-with_status (some s) r = refl

counts-with_fatal : (k : String) (r : RunRecord) → counts (with_fatal k r) ≡ counts r
unfolding with_fatal
counts-with_fatal k r = counts-if _ _ _ _ refl refl

counts-with_usage :
    (k : String) (u : Option Usage) (r : RunRecord) → counts (with_usage k u r) ≡ counts r
unfolding with_usage
counts-with_usage k none r = refl
counts-with_usage k (some u) r = counts-if _ _ _ _ refl refl

counts-with_artifact :
    (k : String) (a : Option ArtifactRef) (r : RunRecord) → counts (with_artifact k a r) ≡ counts r
unfolding with_artifact
counts-with_artifact k none r = refl
counts-with_artifact k (some a) r = counts-if _ _ _ _ refl refl

pub counts-apply_event :
    (as_usage : Any → Option Usage) (as_artifact : Any → Option ArtifactRef) (now : Time)
    (e : RunEventRecord) (r : RunRecord)
    → counts (apply_event as_usage as_artifact now e r) ≡ (suc r.event_count, r.dropped_event_count)
unfolding apply_event
counts-apply_event as_usage as_artifact now e r =
    counts-with_artifact e.kind _ _
    ∙ counts-with_usage e.kind _ _
    ∙ counts-with_fatal e.kind _
    ∙ counts-with_status _ _

pub counts-record_failure :
    (quote : String → String) (at : Time) (operation name : String) (required : Bool)
    (err : GoError) (r : RunRecord)
    → counts (record_failure quote at operation name required err r) ≡ counts r
unfolding record_failure
counts-record_failure quote at operation name required err r = counts-if _ _ _ _ refl refl
