-- ===== src/Telemetry/CommitSha.antt =====
-- `CommitSha` of src/telemetry/trace.rs.
use github_webhook_exporter.Prelude.{
  ℕ, ◌==◌, ◌&&◌, ◌||◌, Bool, not, Option, none, some, Text, length, all, leb, as_bytes,
  to_ascii_lowercase, if◌then◌else◌,
}

pub record CommitSha : Type 0 where
  pub normalized : Text

unfoldable pub is_ascii_hexdigit : ℕ → Bool
is_ascii_hexdigit b =
    leb b'0' b && leb b b'9' || leb b'A' b && leb b b'F' || leb b'a' b && leb b b'f'

-- `none` is `CommitShaError`. The characters that are pushed are the ASCII bytes, in lower case.
unfoldable pub parse_commit_sha : Text → Option CommitSha
unfolding as_bytes is_ascii_hexdigit to_ascii_lowercase
parse_commit_sha value =
    if not (length (as_bytes value) == 40 || length (as_bytes value) == 64)
    then none
    else if not (all is_ascii_hexdigit (as_bytes value))
    then none
    else some (record { normalized = to_ascii_lowercase (as_bytes value) })
