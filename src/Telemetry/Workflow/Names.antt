-- ===== src/Telemetry/Workflow/Names.antt =====
-- `DisplayName` and `WorkflowBranch` of src/telemetry/workflow.rs.
use github_webhook_exporter.Prelude.{
  ℕ, ◌+◌, ◌==◌, ◌&&◌, ◌||◌, Bool, not, [], ◌∷◌, keep, take, any, Text, lit, text_eq, split, Option,
  none, some, leb, if◌then◌else◌,
}

abbrev pub max_display_name_length : ℕ
max_display_name_length = 128

abbrev pub max_branch_name_length : ℕ
max_branch_name_length = 255

-- `char::is_control`: the Unicode category Cc.
unfoldable pub is_control : ℕ → Bool
is_control c = leb c 0x1F || (leb 0x7F c && leb c 0x9F)

abbrev pub visible : ℕ → Bool
visible c = not (is_control c)

pub record DisplayName : Type 0 where
  pub text : Text

-- The loop over the characters, from the number of those retained so far.
unfoldable pub sanitize_from : ℕ → Text → Text
sanitize_from retained [] = []
sanitize_from retained (character ∷ value) =
    let rest = sanitize_from (if is_control character then retained else retained + 1) value in
    if is_control character
    then rest
    else if retained == max_display_name_length
    then []
    else character ∷ rest

abbrev pub nonempty_name : Text → Option DisplayName
nonempty_name [] = none
nonempty_name (c ∷ s) = some (record { text = c ∷ s })

unfoldable pub sanitize_display_name : Text → Option DisplayName
unfolding sanitize_from
sanitize_display_name value = nonempty_name (sanitize_from 0 value)

pub record WorkflowBranch : Type 0 where
  pub text : Text

-- `matches!(segment, "" | "." | "..")`.
unfoldable pub unsafe_segment : Text → Bool
unfolding text_eq
unsafe_segment segment =
    text_eq segment (lit "") || text_eq segment (lit ".") || text_eq segment (lit "..")

unfoldable pub has_unsafe_segment : Text → Bool
unfolding unsafe_segment split
has_unsafe_segment sanitized =
    let (first, rest) = split b'/' sanitized in any unsafe_segment (first ∷ rest)

unfoldable pub sanitize_branch : Text → Option WorkflowBranch
unfolding has_unsafe_segment
sanitize_branch value =
    let sanitized = take max_branch_name_length (keep visible value) in
    if has_unsafe_segment sanitized then none else some (record { text = sanitized })
