-- ===== src/Errors.antt =====
-- errors.go: the classified error of the SDK, Go's error values, and how one is made from another.
use agentwrap.Prelude.{
  ℕ, ℤ, pos, Duration, String, Bool, true, false, Option, none, some, List, [], ◌∷◌, is_empty,
  str_append,
}

-- `unset` is the empty text, `other` any text that is none of the constants.
pub data ErrorCategory : Type 0 where
  unset configuration health runtime_unavailable provider_unavailable : ErrorCategory
  model_unavailable authentication permission rate_limit timeout cancellation : ErrorCategory
  malformed_event runtime_exit validation repair_exhausted cleanup unknown : ErrorCategory
  other : String → ErrorCategory

abbrev pub category_text : ErrorCategory → String
category_text ErrorCategory.unset = ""
category_text ErrorCategory.configuration = "configuration"
category_text ErrorCategory.health = "health"
category_text ErrorCategory.runtime_unavailable = "runtime_unavailable"
category_text ErrorCategory.provider_unavailable = "provider_unavailable"
category_text ErrorCategory.model_unavailable = "model_unavailable"
category_text ErrorCategory.authentication = "authentication"
category_text ErrorCategory.permission = "permission"
category_text ErrorCategory.rate_limit = "rate_limit"
category_text ErrorCategory.timeout = "timeout"
category_text ErrorCategory.cancellation = "cancellation"
category_text ErrorCategory.malformed_event = "malformed_event"
category_text ErrorCategory.runtime_exit = "runtime_exit"
category_text ErrorCategory.validation = "validation"
category_text ErrorCategory.repair_exhausted = "repair_exhausted"
category_text ErrorCategory.cleanup = "cleanup"
category_text ErrorCategory.unknown = "unknown"
category_text (ErrorCategory.other s) = s

abbrev pub is_rate_limit : ErrorCategory → Bool
is_rate_limit ErrorCategory.rate_limit = true
is_rate_limit _ = false

-- Go's map from texts to texts; `none` is nil.
abbrev pub StringMap : Type 0
StringMap = Option (List (String × String))

-- An error value with no `SDKError` behind it: the two of package context, and any other by its
-- identity and its text.
pub data PlainError : Type 0 where
  canceled deadline_exceeded : PlainError
  message : ℕ → String → PlainError

-- `cause` is nil or a plain error: no code modelled here gives an error with an `SDKError` in it.
pub record SdkError : Type 0 where
  pub category : ErrorCategory
  pub operation : String
  pub user_detail : String
  pub debug_detail : String
  pub status_code : ℤ
  pub response_headers : StringMap
  pub response_body : String
  pub provider : String
  pub model : String
  pub runtime_kind : String
  pub exit_code : Option ℤ
  pub signal : String
  pub native_type : String
  pub retry_after : Duration
  pub metadata : StringMap
  pub cause : Option PlainError

-- An `error` that is not nil. `wrapping` is one whose chain of causes holds an `SDKError`.
pub data GoError : Type 0 where
  plain : PlainError → GoError
  sdk : SdkError → GoError
  wrapping : String → SdkError → GoError

-- (*SDKError).Error
unfoldable pub error_text : Option SdkError → String
error_text none = "<nil>"
error_text (some e) = with_operation (is_empty e.operation) (is_empty e.user_detail)
  where
    with_operation : Bool → Bool → String
    with_operation true _ = str_append (category_text e.category) (str_append ": " e.user_detail)
    with_operation false true = str_append e.operation (str_append ": " (category_text e.category))
    with_operation false false =
        str_append e.operation
          (str_append ": " (str_append (category_text e.category) (str_append ": " e.user_detail)))

-- (*SDKError).Unwrap
unfoldable pub unwrap : Option SdkError → Option PlainError
unwrap none = none
unwrap (some e) = e.cause

-- The `Error()` texts of the two errors of package context are fixed by Go.
abbrev pub plain_text : PlainError → String
plain_text canceled = "context canceled"
plain_text deadline_exceeded = "context deadline exceeded"
plain_text (message _ s) = s

abbrev pub go_error_text : GoError → String
unfolding error_text
go_error_text (plain p) = plain_text p
go_error_text (sdk e) = error_text (some e)
go_error_text (wrapping s e) = s

abbrev pub ErrorOption : Type 0
ErrorOption = SdkError → SdkError

abbrev apply_options : List ErrorOption → SdkError → SdkError
apply_options [] e = e
apply_options (opt ∷ opts) e = apply_options opts (opt e)

unfoldable pub new_error :
    ErrorCategory → String → String → Option PlainError → List ErrorOption → SdkError
new_error category operation user_detail cause opts = apply_options opts (record {
  category = category;
  operation = operation;
  user_detail = user_detail;
  debug_detail = "";
  status_code = pos 0;
  response_headers = none;
  response_body = "";
  provider = "";
  model = "";
  runtime_kind = "";
  exit_code = none;
  signal = "";
  native_type = "";
  retry_after = pos 0;
  metadata = none;
  cause = cause;
})

abbrev pub with_debug_detail : String → ErrorOption
with_debug_detail detail e = record e { debug_detail = detail }

abbrev pub with_status_code : ℤ → ErrorOption
with_status_code status e = record e { status_code = status }

abbrev pub with_provider_model : String → String → ErrorOption
with_provider_model provider model e = record e { provider = provider; model = model }

abbrev pub with_runtime_kind : String → ErrorOption
with_runtime_kind kind e = record e { runtime_kind = kind }

abbrev pub with_exit_code : ℤ → ErrorOption
with_exit_code code e = record e { exit_code = some code }

abbrev pub with_signal : String → ErrorOption
with_signal signal e = record e { signal = signal }

abbrev pub with_native_type : String → ErrorOption
with_native_type native_type e = record e { native_type = native_type }

abbrev pub with_retry_after : Duration → ErrorOption
with_retry_after delay e = record e { retry_after = delay }

-- ErrorAs: the first `SDKError` of the chain.
unfoldable pub error_as : GoError → Option SdkError
error_as (plain p) = none
error_as (sdk e) = some e
error_as (wrapping s e) = some e
