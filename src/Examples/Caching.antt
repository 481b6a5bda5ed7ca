-- ===== src/Examples/Caching.antt =====
-- A directive for the first four bytes of a prompt, with a hash that tells lengths apart.
use agentwrap.Prelude.{pos, ◌==◌, ◌≡◌, ◌↔◌, ◌⊎◌, refl, String, false, none, if◌then◌else◌}
use agentwrap.Contract.{PromptCacheDirective, enabled}
use agentwrap.Cache.{Library, validate_prompt_cache_directive}
use agentwrap.Cache.Exact.{Describes, validate_prompt_cache_directive_exact}

abbrev zeros : String
zeros = "0000000000000000000000000000000000000000000000000000000000000000"

abbrev library : Library
library = record {
  lower = λ s. s;
  prefix_hash = λ s n. if n == 4 then zeros else "";
  atoi = λ s. none;
}

abbrev directive : PromptCacheDirective
directive = record {
  key = "k";
  breakpoint_bytes = pos 4;
  prefix_sha256 = zeros;
  mode = "prefix";
  require_native = false;
}

accepted_test : validate_prompt_cache_directive library "hello" directive ≡ none
unfolding validate_prompt_cache_directive
accepted_test = refl

validate_prompt_cache_directive_exact_example :
    validate_prompt_cache_directive library "hello" directive ≡ none
    ↔ ((enabled directive ≡ false) ⊎ Describes library "hello" directive)
validate_prompt_cache_directive_exact_example =
    validate_prompt_cache_directive_exact library "hello" directive
