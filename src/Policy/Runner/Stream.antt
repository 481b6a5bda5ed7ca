-- ===== src/Policy/Runner/Stream.antt =====
-- The events of a policy run (policy.go): forwarding, sending and dropping.
use agentwrap.Prelude.{
  ℕ, suc, ℤ, pos, is_zero_time, String, some, List, [], ◌∷◌, ◌++◌, is_empty, str_append, decimal,
  if◌then◌else◌,
}
use agentwrap.Dynamic.{named, integer, put}
use agentwrap.Events.Envelope.{Event, kind, copy_payload}
use agentwrap.Policy.Runner.State.{Environment, Offer, context_done, accepted, full, Stream}

module _ {W : Type 0} (env : Environment W) where
  stamp_time : Event → W → Event × W
  stamp_time e w =
      let (t, w') = env.now w in if is_zero_time e.time then (record e { time = t }, w') else (e, w)

  -- recordDroppedEvent
  record_dropped_event : Event → Stream → W → Stream × W
  record_dropped_event e s w =
      let (t, w') = env.now w in
      (
        record s {
          dropped =
              s.dropped ++ record { kind = kind e; type = e.type; run_id = e.run_id; at = t } ∷ [];
        },
        w',
      )

  deliver : Offer → Event → Stream → W → Stream × W
  unfolding record_dropped_event
  deliver context_done e s w = (s, w)
  deliver accepted e s w = (record s { sent = s.sent ++ e ∷ [] }, w)
  deliver full e s w = record_dropped_event e s w

  -- The identity that an event without one gets, `<run>-event-<seq>`.
  abbrev pub event_id : String → ℕ → String
  event_id id seq = str_append id (str_append "-event-" (decimal seq))

  fill_ids : String → ℕ → Event → Event
  fill_ids id seq e = record e {
    id = if is_empty e.id then event_id id seq else e.id;
    run_id = if is_empty e.run_id then id else e.run_id;
  }

  unfoldable pub send_event : String → Event → Stream → W → Stream × W
  unfolding stamp_time deliver fill_ids
  send_event id e s w =
      let seq = suc s.seq in
      let (stamped, w1) = stamp_time (fill_ids id seq e) w in
      let (o, w2) = env.offer stamped w1 in deliver o stamped (record s { seq = seq }) w2

  -- The payload that forwardEvents gives to an event of an attempt.
  unfoldable pub tag : String → ℕ → ℤ → Event → Event
  tag id attempt target_index e = record e {
    payload = some (
        put "target_index" (integer target_index) (
          put "attempt" (integer (pos attempt))
            (put "policy_run_id" (named "RunID" id) (copy_payload e.payload))));
  }

  unfoldable pub forward_events : String → ℕ → ℤ → List Event → Stream → W → Stream × W
  unfolding tag send_event
  forward_events id attempt target_index [] s w = (s, w)
  forward_events id attempt target_index (e ∷ es) s w =
      let (s', w') = send_event id (tag id attempt target_index e) s w in
      forward_events id attempt target_index es s' w'
