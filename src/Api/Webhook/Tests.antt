-- ===== src/Api/Webhook/Tests.antt =====
-- The theorems on requests, at one without a content type and one that is too large.
use github_webhook_exporter.Prelude.{
  List, ◌++◌, text_eq, if◌then◌else◌, ℕ, ◌≡◌, refl, none, some, [], lit, ok, err,
}
use github_webhook_exporter.Api.Errors.{invalid_webhook}
use github_webhook_exporter.Api.Webhook.{Request, Parsers, validate_content_type, from_request}
use github_webhook_exporter.Security.Signature
use github_webhook_exporter.Api.Webhook.Requests.{Answered, refusals-Answered}

-- Parsers that accept every text.
abbrev parsers : Parsers
parsers = record {
  to_str = λ bytes. some bytes;
  parse_uuid = λ s. some 102;
  decode_hex = λ bytes. some bytes;
  full_name = λ body. some (lit "octo/cat");
}

abbrev bare : Request
bare = record { header = λ name. none; body = ok [] }

bare_refused : from_request parsers bare ≡ err invalid_webhook
unfolding from_request validate_content_type
bare_refused = refl

-- Every header but the content type holds a signature of 64 digits, and the body is over the limit.
abbrev zeros_16 : List ℕ
zeros_16 = lit "0000000000000000"

abbrev huge : Request
huge = record {
  header = λ name.
      if text_eq name (lit "Content-Type")
      then some (lit "application/json")
      else some (lit "sha256=" ++ (zeros_16 ++ (zeros_16 ++ (zeros_16 ++ zeros_16))));
  body = err 413;
}

refusals-Answered_example : Answered invalid_webhook
refusals-Answered_example = refusals-Answered parsers bare invalid_webhook bare_refused
