-- ===== src/Events/Envelope.antt =====
-- events.go: the event envelope, its kind, and tool observations.
use agentwrap.Prelude.{
  ℕ, Time, String, ◌≡◌, Bool, true, false, Option, none, some, List, ◌||◌, not, arith, is_empty,
  str_eq, if◌then◌else◌,
}
use agentwrap.Dynamic.{
  Any, nil, text, named, AnyMap, no_fields, put, value_at, lookup-put, string_payload_value,
}

pub record RawPayload : Type 0 where
  pub source : String
  pub encoding : String
  pub bytes : List ℕ
  pub safe : Bool

-- A payload that is nil is `none`.
pub record Event : Type 0 where
  pub id : String
  pub run_id : String
  pub session_id : String
  pub time : Time
  pub type : String
  pub payload : Option AnyMap
  pub raw : Option RawPayload

-- A Go loop that copies a map gives a map with the same entries; nil is copied to the empty map.
abbrev pub copy_payload : Option AnyMap → AnyMap
copy_payload none = no_fields
copy_payload (some m) = m

abbrev pub event_kind_payload_key : String
event_kind_payload_key = "event_kind"

unfoldable pub event_payload_with_kind : String → Option AnyMap → AnyMap
event_payload_with_kind kind values =
    put event_kind_payload_key (named "EventKind" kind) (copy_payload values)

-- The two type assertions of `Kind` on the value under the key.
unfoldable pub kind_of : Any → String
kind_of (text s) = s
kind_of (named t s) = if str_eq t "EventKind" then s else ""
kind_of _ = ""

-- Event.Kind
unfoldable pub kind : Event → String
unfolding kind_of
kind e = elim e.payload [ none ↦ "" | some m ↦ kind_of (value_at event_kind_payload_key m) ]

pub record ToolObservation : Type 0 where
  pub call_id : String
  pub name : String
  pub status : String
  pub arguments : Any
  pub result : Any
  pub error : Any

abbrev pub is_nil_value : Any → Bool
is_nil_value nil = true
is_nil_value _ = false

-- payload[k] = v, unless the guard says that there is nothing to store.
abbrev pub put_unless : Bool → String → Any → AnyMap → AnyMap
put_unless skip k v m = if skip then m else put k v m

-- `redact` is redactMetadataValue of redact.go.
module _ (redact : Any → Any) where
  unfoldable pub event_payload_with_tool_observation : Option AnyMap → ToolObservation → AnyMap
  event_payload_with_tool_observation values tool =
      let named_call =
        put_unless (is_empty tool.call_id) "tool_call_id" (text tool.call_id)
          (copy_payload values) in
      let named_tool = put_unless (is_empty tool.name) "tool_name" (text tool.name) named_call in
      let with_name = put_unless (is_empty tool.name) "tool" (text tool.name) named_tool in
      let with_status =
        put_unless (is_empty tool.status) "tool_status" (text tool.status) with_name in
      let with_arguments =
        put_unless (is_nil_value tool.arguments) "tool_arguments" (redact tool.arguments)
          with_status in
      let with_result =
        put_unless (is_nil_value tool.result) "tool_result" (redact tool.result) with_arguments in
      put_unless (is_nil_value tool.error) "tool_error" (redact tool.error) with_result

observed : AnyMap → ToolObservation
observed m =
    let name = string_payload_value (value_at "tool_name" m) in
    record {
      call_id = string_payload_value (value_at "tool_call_id" m);
      name = if is_empty name then string_payload_value (value_at "tool" m) else name;
      status = string_payload_value (value_at "tool_status" m);
      arguments = value_at "tool_arguments" m;
      result = value_at "tool_result" m;
      error = value_at "tool_error" m;
    }

abbrev pub no_observation : ToolObservation
no_observation = record {
  call_id = "";
  name = "";
  status = "";
  arguments = nil;
  result = nil;
  error = nil;
}

-- Event.ToolObservation
unfoldable pub tool_observation : Event → ToolObservation × Bool
unfolding observed kind
tool_observation e =
    if not (str_eq (kind e) "tool") then (no_observation, false) else elim e.payload [
      | none ↦ (no_observation, false)
      | some m ↦ (
        observed m,
        not (is_empty (observed m).call_id)
            || not (is_empty (observed m).name)
            || not (is_nil_value (observed m).arguments)
            || not (is_nil_value (observed m).result)
            || not (is_nil_value (observed m).error),
      )
    ]

-- The kind that a payload is given is the kind that its event reports, whatever the payload held.
pub kind-event_payload_with_kind :
    (e : Event) (k : String) (values : Option AnyMap)
    → kind (record e { payload = some (event_payload_with_kind k values) }) ≡ k
unfolding kind event_payload_with_kind
kind-event_payload_with_kind e k values = ground (
  arith,
  lookup-put event_kind_payload_key event_kind_payload_key (named "EventKind" k)
      (copy_payload values),
)
