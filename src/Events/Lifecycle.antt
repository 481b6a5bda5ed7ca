-- ===== src/Events/Lifecycle.antt =====
-- lifecycle_events.go: the canonical lifecycle events, and the print of their sequence numbers.
use agentwrap.Prelude.{
  ℕ, zero, suc, ℤ, pos, negsuc, ◌+◌, ◌*◌, ◌/◌, ◌%◌, ◌^◌, ◌-◌, ◌<◌, ◌≡◌, refl, ◌∙◌, Time, String,
  Option, none, some, List, [], ◌∷◌, arith, ◌==◌, Bool-cases, inl, inr, if◌then◌else◌, digit,
  str_append,
}
use agentwrap.Dynamic.{text, boolean, no_fields, put}
use agentwrap.Contract.{RunStatus, SessionMetadata, SessionAction, SessionRelationship}
use agentwrap.Events.Envelope.{Event, event_payload_with_kind}

-- The loop of itoa64 over a buffer with `room` bytes free in front; `none` is a write in front of
-- the buffer, which panics.
itoa_loop : ℕ → ℕ → List ℕ → Option (List ℕ)
itoa_loop zero v buf = if v == 0 then some buf else none
itoa_loop (suc room) v buf =
    let more = itoa_loop room (v / 10) ((b'0' + v % 10) ∷ buf) in if v == 0 then some buf else more

-- The bytes of the number. The loop is not entered at a negative number.
unfoldable pub itoa64 : ℤ → Option (List ℕ)
unfolding itoa_loop
itoa64 (pos zero) = some (b'0' ∷ [])
itoa64 (pos (suc n)) = itoa_loop 20 (suc n) []
itoa64 (negsuc n) = some []

-- The number that decimal digits stand for, behind those already read.
abbrev pub value_onto : ℕ → List ℕ → ℕ
value_onto acc [] = acc
value_onto acc (b ∷ bs) = value_onto (acc * 10 + (b - b'0')) bs

abbrev ten_to : ℕ → ℕ
ten_to zero = 1
ten_to (suc k) = 10 * ten_to k

digit_step : (v : ℕ) → v / 10 * 10 + (b'0' + v % 10 - b'0') ≡ v
digit_step v = omega arith

itoa_loop_value :
    (room v : ℕ) (buf : List ℕ)
    → v < ten_to room
    → (bs : List ℕ) × (itoa_loop room v buf ≡ some bs) × (value_onto 0 bs ≡ value_onto v buf)
unfolding itoa_loop
itoa_loop_value zero v buf h = let e : v ≡ 0 = omega arith in (buf, rw e, rw e)
itoa_loop_value (suc room) v buf h = elim (Bool-cases (v == 0)) [
  | inl e ↦ (buf, rw e, let z : v ≡ 0 = ground arith in rw z)
  | inr e ↦
      let more = itoa_loop_value room (v / 10) ((b'0' + v % 10) ∷ buf) (omega arith) in
      (more.0, rw e more.1, more.2 ∙ (rw (digit_step v)))
]

-- Every number that is not negative and fits an int64 is printed, with no write outside the buffer
-- of 20 bytes, as digits that read back as the number.
pub itoa64_reads_back :
    (v : ℕ) → v < 2 ^ 63 → (bs : List ℕ) × (itoa64 (pos v) ≡ some bs) × (value_onto 0 bs ≡ v)
unfolding itoa64
itoa64_reads_back zero h = (b'0' ∷ [], refl, refl)
itoa64_reads_back (suc n) h = itoa_loop_value 20 (suc n) [] (omega arith)

-- A negative number is printed as the empty text.
itoa64_negative : (n : ℕ) → itoa64 (negsuc n) ≡ some []
unfolding itoa64
itoa64_negative n = refl

digits_text : List ℕ → String
digits_text [] = ""
digits_text (b ∷ bs) = str_append (digit (b - b'0')) (digits_text bs)

-- `none` where itoa64 panics, which itoa64_reads_back excludes.
numbered : String → String → ℤ → Option String
numbered run_id infix_text seq = elim (itoa64 seq) [
  | none ↦ none
  | some bs ↦ some (str_append run_id (str_append infix_text (digits_text bs)))
]

-- The texts of the statuses, actions and relationships.
abbrev pub status_text : RunStatus → String
status_text RunStatus.unset = ""
status_text RunStatus.starting = "starting"
status_text RunStatus.running = "running"
status_text RunStatus.validating = "validating"
status_text RunStatus.repairing = "repairing"
status_text RunStatus.completed = "completed"
status_text RunStatus.failed = "failed"
status_text RunStatus.cancelled = "cancelled"
status_text (RunStatus.other s) = s

abbrev pub action_text : SessionAction → String
action_text SessionAction.default = ""
action_text SessionAction.fresh = "fresh"
action_text SessionAction.continue = "continue"
action_text SessionAction.fork = "fork"
action_text SessionAction.replace = "replace"
action_text SessionAction.release = "release"
action_text (SessionAction.other s) = s

abbrev pub relationship_text : SessionRelationship → String
relationship_text SessionRelationship.none = ""
relationship_text SessionRelationship.fresh = "fresh"
relationship_text SessionRelationship.same = "same"
relationship_text SessionRelationship.forked = "forked"
relationship_text SessionRelationship.replaced = "replaced"
relationship_text SessionRelationship.released = "released"
relationship_text SessionRelationship.unsupported = "unsupported"
relationship_text SessionRelationship.best_effort = "best_effort"
relationship_text (SessionRelationship.other s) = s

-- LifecycleEvent; the context is not used by the source either.
unfoldable pub lifecycle_event :
    String → String → String → ℤ → Time → RunStatus → RunStatus → String → Option Event
unfolding numbered itoa64 digits_text
lifecycle_event run_id session_id turn_id seq at from to reason =
    elim (numbered run_id "-lifecycle-" seq) [
      | none ↦ none
      | some id ↦ some (record {
        id = id;
        run_id = run_id;
        session_id = session_id;
        time = at;
        type = "lifecycle.transition";
        payload = some (
            event_payload_with_kind "lifecycle" (
              some (
                put "from" (text (status_text from)) (
                  put "to" (text (status_text to))
                    (put "reason" (text reason) (put "turn_id" (text turn_id) no_fields))))));
        raw = none;
      })
    ]

-- SessionEvent
unfoldable pub session_event : String → String → String → ℤ → Time → SessionMetadata → Option Event
unfolding numbered itoa64 digits_text
session_event run_id session_id turn_id seq at m = elim (numbered run_id "-session-" seq) [
  | none ↦ none
  | some id ↦ some (record {
    id = id;
    run_id = run_id;
    session_id = session_id;
    time = at;
    type = "session.relationship";
    payload = some (
        event_payload_with_kind "session" (
          some (
            put "requested_action" (text (action_text m.requested_action)) (
              put "relationship" (text (relationship_text m.relationship)) (
                put "requested_id" (text m.requested_id) (
                  put "session_id" (text m.id) (
                    put "unsupported" (text m.unsupported_reason) (
                      put "best_effort" (boolean m.best_effort)
                        (put "turn_id" (text turn_id) no_fields)))))))));
    raw = none;
  })
]
