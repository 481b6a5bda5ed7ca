-- ===== src/Cache.antt =====
-- The prompt cache directive (cache.go). Go's lower case, SHA-256 and strconv.Atoi are parameters.
pub mod Exact
use Prim.Native.Char.{code}
use agentwrap.Prelude.{
  ℕ, ◌==◌, ltb, leb, ℤ, pos, is_positive, pos_part, String, Bool, true, false, ◌&&◌, ◌||◌, not,
  Option, none, some, or_default, List, [], ◌∷◌, is_empty, str_eq, find, if◌then◌else◌,
}
use agentwrap.Errors.{ErrorCategory, PlainError, message, SdkError, StringMap, new_error}
use agentwrap.Contract.{PromptCacheDirective, enabled, zero_directive}
use agentwrap.Validation.Checks.{trim_space, byte_length}
use agentwrap.Observe.Run.Artifacts.{entries}

-- `prefix_sha256` is the lower-case hexadecimal SHA-256 of the first bytes of a text.
pub record Library : Type 0 where
  pub lower : String → String
  pub prefix_hash : String → ℕ → String
  pub atoi : String → Option ℤ

-- The codes of 0 to 9, A to F and a to f.
abbrev hex_code : ℕ → Bool
hex_code c = (leb 48 c && leb c 57) || (leb 65 c && leb c 70) || (leb 97 c && leb c 102)

unfoldable pub all_hex : String → Bool
all_hex String.[] = true
all_hex (String.◌∷◌ c s) = hex_code (code c) && all_hex s

-- What hex.DecodeString reads as sha256.Size bytes.
unfoldable pub is_digest : String → Bool
unfolding all_hex byte_length
is_digest s = all_hex s && (byte_length s == 64)

unfoldable pub cache_error : String → Option SdkError
unfolding new_error
cache_error detail = some (
    new_error ErrorCategory.configuration "prompt cache directive" detail (some (message 0 detail))
      [])

module _ (lib : Library) where
  abbrev pub digest_of : PromptCacheDirective → String
  digest_of d = lib.lower (trim_space d.prefix_sha256)

  abbrev pub hash_of : String → PromptCacheDirective → String
  hash_of prompt d = lib.prefix_hash prompt (pos_part d.breakpoint_bytes)

  -- ValidatePromptCacheDirective
  unfoldable pub validate_prompt_cache_directive : String → PromptCacheDirective → Option SdkError
  unfolding cache_error is_digest enabled trim_space byte_length
  validate_prompt_cache_directive prompt d =
      if not (enabled d)
      then none
      else if is_empty (trim_space d.key)
      then cache_error "cache key is required"
      else if is_empty (trim_space d.mode)
      then cache_error "cache mode is required"
      else if not (is_positive d.breakpoint_bytes)
      then cache_error "cache breakpoint must be greater than zero"
      else if ltb (byte_length prompt) (pos_part d.breakpoint_bytes)
      then cache_error "cache breakpoint exceeds prompt length"
      else if not (is_digest (digest_of d))
      then cache_error "cache prefix SHA-256 must contain 64 hexadecimal characters"
      else if not (str_eq (digest_of d) (hash_of prompt d))
      then cache_error "cache prefix SHA-256 does not match prompt bytes"
      else none

  abbrev metadata_text : String → StringMap → String
  metadata_text key metadata = trim_space (or_default (find key (entries metadata)) "")

  with_breakpoint : Option ℤ → PromptCacheDirective → PromptCacheDirective × Bool × Option SdkError
  unfolding cache_error
  with_breakpoint none d =
      (zero_directive, true, cache_error "cache breakpoint metadata must be an integer")
  with_breakpoint (some n) d = (record d { breakpoint_bytes = n }, true, none)

  -- PromptCacheDirectiveFromMetadata
  unfoldable pub prompt_cache_directive_from_metadata :
      StringMap → PromptCacheDirective × Bool × Option SdkError
  unfolding with_breakpoint find trim_space
  prompt_cache_directive_from_metadata metadata =
      let key = metadata_text "prompt_cache_key" metadata in
      let breakpoint = metadata_text "prompt_cache_breakpoint_bytes" metadata in
      let digest = metadata_text "prompt_cache_prefix_sha256" metadata in
      let mode = metadata_text "prompt_cache_mode" metadata in
      if is_empty key && is_empty breakpoint && is_empty digest && is_empty mode
      then (zero_directive, false, none)
      else with_breakpoint (lib.atoi breakpoint) (record {
        key = key;
        breakpoint_bytes = pos 0;
        prefix_sha256 = digest;
        mode = mode;
        require_native = false;
      })
