-- ===== src/Observe/Run/Forward/Delivered.antt =====
-- Which events observedRun (observability.go) hands on, and what it counts.
use mathlib.Core.List.{append_assoc, append-nil}
use agentwrap.Prelude.{
  ℕ, suc, ◌+◌, str_eq, ◌||◌, ◌≡◌, refl, sym, ap, ◌∙◌, Bool, true, false, Bool-cases, inl, inr, List,
  [], ◌∷◌, ◌++◌, arith, if◌then◌else◌,
}
use agentwrap.Events.Envelope.{Event, kind}
use agentwrap.Policy.Runner.State.{Offer, context_done, accepted, full}
use agentwrap.Observe.Run.Record.{event_record}
use agentwrap.Observe.Run.State.{Environment, ObservedRun}
use agentwrap.Observe.Run.State.Counts.{append_record-Counted}
use agentwrap.Observe.Run.Forward.{
  droppable, take_event, record_dropped_event, delivered, on_full, hand_on, observe_event, forward,
}

-- The kinds of event that a full channel may leave out.
abbrev pub minor : Event → Bool
minor e = str_eq (kind e) "message" || str_eq (kind e) "progress"

module _ {W : Type 0} (env : Environment W) where
  -- The world once the event was counted, appended to the sinks and put into the store.
  abbrev pub noticed : Event → ObservedRun → W → W
  noticed e r w = (observe_event env e r w).1

  -- The world once it was tried to send the event without waiting.
  abbrev pub offered : Event → ObservedRun → W → W
  offered e r w = (env.offer e (noticed e r w)).1

  -- What the channel and the context answer to it.
  abbrev pub answer : Event → ObservedRun → W → Offer
  answer e r w = (env.offer e (noticed e r w)).0

  -- From a run and a world, of the events of the inner run: those handed on, how many were left out,
  -- and how many were read.
  pub data Delivered : List Event → ObservedRun → W → List Event → ℕ → ℕ → Type 0 where
    all_done : {r : ObservedRun} {w : W} → Delivered [] r w [] 0 0
    context_ended :
        {e : Event} {events : List Event} {r : ObservedRun} {w : W}
        → answer e r w ≡ context_done
        → Delivered (e ∷ events) r w [] 0 1
    ended_waiting :
        {e : Event} {events : List Event} {r : ObservedRun} {w : W}
        → answer e r w ≡ full
        → minor e ≡ false
        → (env.deliver e (offered e r w)).0 ≡ false
        → Delivered (e ∷ events) r w [] 0 1
    handed_on :
        {e : Event} {events handed : List Event} {r : ObservedRun} {w : W} {dropped seen : ℕ}
        → answer e r w ≡ accepted
        → Delivered events
            (take_event e (observe_event env e r w).0)
            (offered e r w)
            handed
            dropped
            seen
        → Delivered (e ∷ events) r w (e ∷ handed) dropped (suc seen)
    handed_late :
        {e : Event} {events handed : List Event} {r : ObservedRun} {w : W} {dropped seen : ℕ}
        → answer e r w ≡ full
        → minor e ≡ false
        → (env.deliver e (offered e r w)).0 ≡ true
        → Delivered events
            (take_event e (observe_event env e r w).0)
            (env.deliver e (offered e r w)).1
            handed
            dropped
            seen
        → Delivered (e ∷ events) r w (e ∷ handed) dropped (suc seen)
    left_out :
        {e : Event} {events handed : List Event} {r : ObservedRun} {w : W} {dropped seen : ℕ}
        → answer e r w ≡ full
        → minor e ≡ true
        → Delivered events
            (record_dropped_event (observe_event env e r w).0)
            (offered e r w)
            handed
            dropped
            seen
        → Delivered (e ∷ events) r w handed (suc dropped) (suc seen)

  -- What the forwarding of events does to a run.
  pub record Forwarded (events : List Event) (before : ObservedRun) (w : W) (after : ObservedRun)
      : Type 0 where
    handed : List Event
    dropped : ℕ
    seen : ℕ
    delivery : Delivered events before w handed dropped seen
    sent_too : after.sent ≡ before.sent ++ handed
    sequence : after.seq ≡ before.seq + seen
    events_counted : after.run_record.event_count ≡ before.run_record.event_count + seen
    drops_counted :
        after.run_record.dropped_event_count ≡ before.run_record.dropped_event_count + dropped

  -- The run after an event was recorded.
  record Observed (before after : ObservedRun) : Type 0 where
    sent_same : after.sent ≡ before.sent
    one_more : after.seq ≡ suc before.seq
    one_event : after.run_record.event_count ≡ suc before.run_record.event_count
    drops_same : after.run_record.dropped_event_count ≡ before.run_record.dropped_event_count

  observe_event-Observed :
      (e : Event) (r : ObservedRun) (w : W) → Observed r (observe_event env e r w).0
  unfolding observe_event
  observe_event-Observed e r w =
      let (observed_at, w1) = env.now w in
      let c =
        append_record-Counted env (event_record r.policy r.id (suc r.seq) observed_at e)
          (record r { seq = suc r.seq }) w1 in
      record {
        sent_same = c.same_sent;
        one_more = c.same_seq;
        one_event = ap (λ p. p.0) c.same_counts;
        drops_same = ap (λ p. p.1) c.same_counts;
      }

  ended-Forwarded :
      (e : Event) (events : List Event) (r : ObservedRun) (w : W)
      → Delivered (e ∷ events) r w [] 0 1
      → Forwarded (e ∷ events) r w (observe_event env e r w).0
  ended-Forwarded e events r w d =
      let o = observe_event-Observed e r w in
      record {
        handed = [];
        dropped = 0;
        seen = 1;
        delivery = d;
        sent_too = o.sent_same ∙ sym (append-nil r.sent);
        sequence = omega (arith, o.one_more);
        events_counted = omega (arith, o.one_event);
        drops_counted = omega (arith, o.drops_same);
      }

  taken-Forwarded :
      (e : Event) (events : List Event) (r : ObservedRun) (w w' : W) (after : ObservedRun)
      → ((handed : List Event) (dropped seen : ℕ)
          → Delivered events (take_event e (observe_event env e r w).0) w' handed dropped seen
          → Delivered (e ∷ events) r w (e ∷ handed) dropped (suc seen))
      → Forwarded events (take_event e (observe_event env e r w).0) w' after
      → Forwarded (e ∷ events) r w after
  taken-Forwarded e events r w w' after step f =
      let o = observe_event-Observed e r w in
      record {
        handed = e ∷ f.handed;
        dropped = f.dropped;
        seen = suc f.seen;
        delivery = step f.handed f.dropped f.seen f.delivery;
        sent_too =
            f.sent_too
            ∙ ap (λ s. s ++ e ∷ [] ++ f.handed) o.sent_same
            ∙ append_assoc r.sent (e ∷ []) f.handed;
        sequence = omega (arith, o.one_more, f.sequence);
        events_counted = omega (arith, o.one_event, f.events_counted);
        drops_counted = omega (arith, o.drops_same, f.drops_counted);
      }

  dropped-Forwarded :
      (e : Event) (events : List Event) (r : ObservedRun) (w : W) (after : ObservedRun)
      → answer e r w ≡ full
      → minor e ≡ true
      → Forwarded events (record_dropped_event (observe_event env e r w).0) (offered e r w) after
      → Forwarded (e ∷ events) r w after
  dropped-Forwarded e events r w after is_full d f =
      let o = observe_event-Observed e r w in
      record {
        handed = f.handed;
        dropped = suc f.dropped;
        seen = suc f.seen;
        delivery = left_out is_full d f.delivery;
        sent_too = f.sent_too ∙ ap (λ s. s ++ f.handed) o.sent_same;
        sequence = omega (arith, o.one_more, f.sequence);
        events_counted = omega (arith, o.one_event, f.events_counted);
        drops_counted = omega (arith, o.drops_same, f.drops_counted);
      }

  -- From here the loop goes on, or has ended.
  follow-Forwarded :
      (e : Event) (events : List Event) (r : ObservedRun) (w : W) (reply : Offer)
      → answer e r w ≡ reply
      → ((r' : ObservedRun) (w' : W) → Forwarded events r' w' (forward env events r' w').0)
      → let handed = hand_on env reply e (observe_event env e r w).0 (offered e r w) in
        Forwarded
          (e ∷ events)
          r
          w
          (if handed.0.0 then forward env events handed.0.1 handed.1 else (handed.0.1, handed.1)).0
  unfolding hand_on on_full delivered droppable
  follow-Forwarded e events r w context_done a rest = ended-Forwarded e events r w (context_ended a)
  follow-Forwarded e events r w accepted a rest =
      taken-Forwarded e events r w (offered e r w) _ (λ handed dropped seen d. handed_on a d)
        (rest (take_event e (observe_event env e r w).0) (offered e r w))
  follow-Forwarded e events r w full a rest = elim (Bool-cases (minor e)) [
    | inl d ↦ rw d (
        dropped-Forwarded e events r w _ a d
          (rest (record_dropped_event (observe_event env e r w).0) (offered e r w)))
    | inr k ↦ elim (Bool-cases (env.deliver e (offered e r w)).0) [
      | inl t ↦
          rw (k, t)
            (taken-Forwarded e events r w (env.deliver e (offered e r w)).1 _
              (λ handed dropped seen d. handed_late a k t d)
              (rest (take_event e (observe_event env e r w).0) (env.deliver e (offered e r w)).1))
      | inr f ↦ rw (k, f) (ended-Forwarded e events r w (ended_waiting a k f))
    ]
  ]

  -- In any environment the wrapper hands on the inner run's events unchanged and in order, and stops
  -- only where the context has ended when it tries, or waits, to send one. It leaves out exactly the
  -- messages and progress that find the channel full, and the run's record and sequence count each
  -- event that it has read, and the record each that was left out.
  pub forward-Forwarded :
      (events : List Event) (r : ObservedRun) (w : W)
      → Forwarded events r w (forward env events r w).0
  unfolding forward
  forward-Forwarded [] r w = record {
    handed = [];
    dropped = 0;
    seen = 0;
    delivery = all_done;
    sent_too = sym (append-nil r.sent);
    sequence = omega arith;
    events_counted = omega arith;
    drops_counted = omega arith;
  }
  forward-Forwarded (e ∷ events) r w =
      follow-Forwarded e events r w (answer e r w) refl (forward-Forwarded events)
