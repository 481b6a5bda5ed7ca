-- ===== src/Validation/Markdown.antt =====
-- The Markdown texts of validation.go: their headings, and the placeholders left in them.
use Prim.Native.Char.{code}
use agentwrap.Prelude.{
  String, ◌≡◌, refl, Option, none, some, List, [], ◌∷◌, ◌==◌, contains, split_at_char,
  if◌then◌else◌,
}
use agentwrap.Validation.Checks.{trim_space}

-- The text behind the "#" at the front.
after_hashes : String → String
after_hashes String.[] = ""
after_hashes (String.◌∷◌ c s) =
    let rest = after_hashes s in if code c == b'#' then rest else String.◌∷◌ c s

-- What stands behind the "#", unless no blank follows them.
heading_text : String → Option String
unfolding trim_space
heading_text String.[] = none
heading_text (String.◌∷◌ c s) = if code c == b' ' then some (trim_space s) else none

heading_of_trimmed : String → Option String
unfolding after_hashes heading_text
heading_of_trimmed String.[] = none
heading_of_trimmed (String.◌∷◌ c s) = if code c == b'#' then heading_text (after_hashes s) else none

headings_of : List String → List String
unfolding heading_of_trimmed trim_space
headings_of [] = []
headings_of (line ∷ lines) = elim (heading_of_trimmed (trim_space line)) [
  | none ↦ headings_of lines
  | some heading ↦ heading ∷ headings_of lines
]

unfoldable pub markdown_headings : String → List String
unfolding headings_of split_at_char
markdown_headings content = headings_of (split_at_char 10 content)

abbrev slot_markers : List String
slot_markers = "TODO" ∷ "TBD" ∷ "{{" ∷ "}}" ∷ "<!-- REQUIRED" ∷ []

pub slots_among : String → List String → List String
slots_among content [] = []
slots_among content (marker ∷ markers) =
    let rest = slots_among content markers in
    if contains content marker then marker ∷ rest else rest

unfoldable pub unresolved_template_slots : String → List String
unfolding slots_among contains
unresolved_template_slots content = slots_among content slot_markers

markdown_test :
    markdown_headings "# Goal \nsome text\n##Bad\n  ## Risks\n#\n" ≡ "Goal" ∷ "Risks" ∷ []
unfolding markdown_headings
markdown_test = refl

slots_test : unresolved_template_slots "a TODO and }}" ≡ "TODO" ∷ "}}" ∷ []
unfolding unresolved_template_slots
slots_test = refl
