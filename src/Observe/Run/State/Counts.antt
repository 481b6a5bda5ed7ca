-- ===== src/Observe/Run/State/Counts.antt =====
-- What an observed run (observability.go) counts when it records an event.
use agentwrap.Prelude.{
  suc, Time, String, ◌≡◌, refl, ◌∙◌, Bool, true, false, Option, none, some, List, [], ◌∷◌,
}
use agentwrap.Errors.{GoError}
use agentwrap.Contract.{Handle}
use agentwrap.Observe.Records.{RunEventRecord}
use agentwrap.Observe.Run.Record.{apply_event}
use agentwrap.Observe.Run.Record.Counts.{counts, counts-apply_event, counts-record_failure}
use agentwrap.Observe.Run.State.{
  Environment, ObservedRun, NamedEventSink, note_failure, upsert_to, upsert, upsert_unless,
  upsert_if_due, to_sink, to_sinks, to_store, append_record,
}

-- What a step on the record of a run leaves as it is.
pub record SameCounts (before after : ObservedRun) : Type 0 where
  pub same_sent : after.sent ≡ before.sent
  pub same_seq : after.seq ≡ before.seq
  pub same_counts : counts after.run_record ≡ counts before.run_record

same : (r : ObservedRun) → SameCounts r r
same r = record { same_sent = refl; same_seq = refl; same_counts = refl }

both : {a b c : ObservedRun} → SameCounts a b → SameCounts b c → SameCounts a c
both p q = record {
  same_sent = q.same_sent ∙ p.same_sent;
  same_seq = q.same_seq ∙ p.same_seq;
  same_counts = q.same_counts ∙ p.same_counts;
}

module _ {W : Type 0} (env : Environment W) where
  note_failure-SameCounts :
      (operation name : String) (required : Bool) (err : Option GoError) (r : ObservedRun) (w : W)
      → SameCounts r (note_failure env operation name required err r w).0
  unfolding note_failure
  note_failure-SameCounts operation name required none r w = same r
  note_failure-SameCounts operation name required (some err) r w = record {
    same_sent = refl;
    same_seq = refl;
    same_counts =
        counts-record_failure env.quote (env.now w).0 operation name required err r.run_record;
  }

  upsert_to-SameCounts :
      (store : Option Handle) (r : ObservedRun) (w : W) → SameCounts r (upsert_to env store r w).0
  unfolding upsert_to
  upsert_to-SameCounts none r w = same r
  upsert_to-SameCounts (some store) r w =
      let (err, w') = env.store_upsert store r.run_record w in
      note_failure-SameCounts "store_upsert_run" "store" false err r w'

  upsert_unless-SameCounts :
      (early : Bool) (now : Time) (r : ObservedRun) (w : W)
      → SameCounts r (upsert_unless env early now r w).0
  unfolding upsert_unless upsert
  upsert_unless-SameCounts true now r w = same r
  upsert_unless-SameCounts false now r w =
      both (record { same_sent = refl; same_seq = refl; same_counts = refl })
        (upsert_to-SameCounts r.store _ w)

  to_sink-SameCounts :
      (sink : Option Handle) (s : NamedEventSink) (e : RunEventRecord) (r : ObservedRun) (w : W)
      → SameCounts r (to_sink env sink s e r w).0
  unfolding to_sink
  to_sink-SameCounts none s e r w = same r
  to_sink-SameCounts (some sink) s e r w =
      let (err, w') = env.sink_append sink e w in
      note_failure-SameCounts "event_sink" s.name s.required err r w'

  to_sinks-SameCounts :
      (sinks : List NamedEventSink) (e : RunEventRecord) (r : ObservedRun) (w : W)
      → SameCounts r (to_sinks env sinks e r w).0
  unfolding to_sinks
  to_sinks-SameCounts [] e r w = same r
  to_sinks-SameCounts (s ∷ sinks) e r w =
      let (r', w') = to_sink env s.sink s e r w in
      both (to_sink-SameCounts s.sink s e r w) (to_sinks-SameCounts sinks e r' w')

  to_store-SameCounts :
      (store : Option Handle) (e : RunEventRecord) (r : ObservedRun) (w : W)
      → SameCounts r (to_store env store e r w).0
  unfolding to_store
  to_store-SameCounts none e r w = same r
  to_store-SameCounts (some store) e r w =
      let (err, w') = env.store_append store e w in
      note_failure-SameCounts "store_append_event" "store" false err r w'

  -- An event counts once, whatever sinks and store answer.
  pub append_record-Counted :
      (e : RunEventRecord) (r : ObservedRun) (w : W)
      → SameCounts
          (record r {
            run_record = record r.run_record { event_count = suc r.run_record.event_count };
          })
          (append_record env e r w).0
  unfolding append_record upsert_if_due
  append_record-Counted e r w =
      let (now, w1) = env.now w in
      let applied = record r {
        run_record = apply_event env.as_usage env.as_artifact now e r.run_record;
      } in
      let (r2, w2) = to_sinks env r.sinks e applied w1 in
      let (r3, w3) = to_store env r.store e r2 w2 in
      let (now', w4) = env.now w3 in
      both
        (record {
          same_sent = refl;
          same_seq = refl;
          same_counts = counts-apply_event env.as_usage env.as_artifact now e r.run_record;
        })
        (both (to_sinks-SameCounts r.sinks e applied w1)
          (both (to_store-SameCounts r.store e r2 w2) (upsert_unless-SameCounts _ now' r3 w4)))
