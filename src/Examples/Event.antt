-- ===== src/Examples/Event.antt =====
-- Events and their sequence numbers.
use agentwrap.Prelude.{ℕ, pos, ◌≡◌, refl, none, some, List, [], ◌∷◌, arith}
use agentwrap.Dynamic.{text, field, no_fields}
use agentwrap.Events.Envelope.{Event, kind, event_payload_with_kind, kind-event_payload_with_kind}
use agentwrap.Events.Lifecycle.{itoa64, value_onto, itoa64_reads_back}

itoa64_test : itoa64 (pos 1073) ≡ some (b'1' ∷ b'0' ∷ b'7' ∷ b'3' ∷ [])
unfolding itoa64
itoa64_test = refl

itoa64_reads_back_example : (bs : List ℕ) × (itoa64 (pos 1073) ≡ some bs) × (value_onto 0 bs ≡ 1073)
itoa64_reads_back_example = itoa64_reads_back 1073 (omega arith)

abbrev message : Event
message = record {
  id = "";
  run_id = "r";
  session_id = "";
  time = 0;
  type = "message.updated";
  payload = none;
  raw = none;
}

kind-event_payload_with_kind_example :
    kind (record message {
      payload =
          some
            (event_payload_with_kind "message" (some (field "event_kind" (text "tool") no_fields)));
    })
    ≡ "message"
kind-event_payload_with_kind_example =
    kind-event_payload_with_kind message "message"
      (some (field "event_kind" (text "tool") no_fields))
