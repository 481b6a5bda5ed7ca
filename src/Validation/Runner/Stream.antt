-- ===== src/Validation/Runner/Stream.antt =====
-- The events of a validating run (validation.go).
use agentwrap.Prelude.{
  ℕ, suc, pos, is_zero_time, String, not, ◌||◌, Option, none, some, List, [], ◌∷◌, ◌++◌, is_empty,
  str_append, str_eq, decimal, if◌then◌else◌,
}
use agentwrap.Dynamic.{text, put}
use agentwrap.Contract.{RunStatus, RunResult}
use agentwrap.Events.Envelope.{Event, copy_payload}
use agentwrap.Events.Lifecycle.{lifecycle_event}
use agentwrap.Policy.Runner.State.{Offer, context_done, accepted, full}
use agentwrap.Validation.Runner.State.{Environment, Stream}

-- The event under the run's own identity, with the identity of the inner run in its payload.
own_event : String → Event → Event
own_event id e =
    if is_empty e.run_id || not (str_eq e.run_id id)
    then record e {
      payload = some (put "inner_run_id" (text e.run_id) (copy_payload e.payload));
      run_id = id;
    }
    else e

numbered_event : String → ℕ → Event → Event
numbered_event id seq e =
    if is_empty e.id
    then record e { id = str_append id (str_append "-event-" (decimal seq)) }
    else e

-- An event that the channel does not take at once is lost.
deliver : Offer → Event → Stream → Stream
deliver context_done e s = s
deliver accepted e s = record s { sent = s.sent ++ e ∷ [] }
deliver full e s = s

module _ {W : Type 0} (env : Environment W) where
  stamp_time : Event → W → Event × W
  stamp_time e w =
      let (t, w') = env.now w in if is_zero_time e.time then (record e { time = t }, w') else (e, w)

  unfoldable pub send_event : String → Event → Stream → W → Stream × W
  unfolding own_event numbered_event deliver stamp_time
  send_event id e s w =
      let seq = suc s.seq in
      let (stamped, w1) = stamp_time (own_event id (numbered_event id seq e)) w in
      let (o, w2) = env.offer stamped w1 in (deliver o stamped (record s { seq = seq }), w2)

  unfoldable pub forward_events : String → List Event → Stream → W → Stream × W
  unfolding send_event
  forward_events id [] s w = (s, w)
  forward_events id (e ∷ es) s w = let (s', w') = send_event id e s w in forward_events id es s' w'

  send_if_built : String → Option Event → Stream → W → Stream × W
  unfolding send_event
  send_if_built id none s w = (s, w)
  send_if_built id (some e) s w = send_event id (record e { id = "" }) s w

  -- sendLifecycle; the number 0 is always printed, so there is an event.
  unfoldable pub send_lifecycle :
      String → RunResult → RunStatus → RunStatus → String → Stream → W → Stream × W
  unfolding send_if_built
  send_lifecycle id result from to reason s w =
      let (t, w') = env.now w in
      send_if_built id
        (lifecycle_event id result.session_id result.turn_id (pos 0) t from to reason) s w'
