-- ===== src/Api/Webhook.antt =====
-- src/api/webhook.rs: how a webhook request is taken apart and its result classified. HTTP, the
-- body's limit, serde, the UUID and the hexadecimal decoder are parameters.
pub mod Causes
pub mod Requests
mod Tests
use github_webhook_exporter.Prelude.{
  ℕ, ◌≡◌, ◌≢◌, refl, sym, ◌==◌, ◌⊎◌, inl, inr, Bool, Bool-cases, true, false, not, List, [], ◌∷◌,
  Text, lit, text_eq, text_eq→eq, Option, none, some, Option-cases, Result, ok, err, ok_or, map_err,
  ◌>>=◌, arith, if◌then◌else◌,
}
use github_webhook_exporter.Prelude.Options
use github_webhook_exporter.Domain.Delivery.{DeliveryId, ParseUuid, parse_delivery_id}
use github_webhook_exporter.Security.Names
use github_webhook_exporter.Security.Names.{CanonicalRepositoryName}
use github_webhook_exporter.Security.Signature
use github_webhook_exporter.Security.Signature.{
  WebhookSignature, WebhookAuthenticationError, unauthorized, unavailable,
}
use github_webhook_exporter.Api.Errors.{
  AppError, invalid_webhook, unauthorized_webhook, webhook_payload_too_large,
  unsupported_webhook_media_type, webhook_unavailable, Response, into_response,
}

-- `headers.get` gives a value's bytes. The body is what axum reads of it, or the status with which
-- it refuses it.
pub record Request : Type 0 where
  pub header : Text → Option (List ℕ)
  pub body : Result ℕ (List ℕ)

pub record WebhookRequest : Type 0 where
  pub body : List ℕ
  pub repository_name : CanonicalRepositoryName
  pub event_type : Text
  pub delivery_id : DeliveryId
  pub signature : WebhookSignature

-- `to_str` of a header's value, the decoder of 64 hexadecimal digits, and the field
-- `repository.full_name` of a JSON body.
pub record Parsers : Type 0 where
  pub to_str : List ℕ → Option Text
  pub parse_uuid : ParseUuid
  pub decode_hex : List ℕ → Option (List ℕ)
  pub full_name : List ℕ → Option Text

abbrev pub json_content_type : Text
json_content_type = lit "application/json"

abbrev content_type_of : Option (List ℕ) → Result AppError (Unit {0})
content_type_of none = err invalid_webhook
content_type_of (some value) =
    if text_eq value json_content_type then ok tt else err unsupported_webhook_media_type

unfoldable pub validate_content_type : Request → Result AppError (Unit {0})
unfolding text_eq
validate_content_type request = content_type_of (request.header (lit "Content-Type"))

abbrev pub nonempty : Text → Option Text
nonempty [] = none
nonempty (c ∷ s) = some (c ∷ s)

unfoldable pub required_header : Parsers → Request → Text → Result AppError Text
required_header parsers request name =
    ok_or (Options.and_then (Options.and_then (request.header name) parsers.to_str) nonempty)
      invalid_webhook

unfoldable pub map_body_rejection : ℕ → AppError
map_body_rejection status = if status == 413 then webhook_payload_too_large else invalid_webhook

-- `map_err(|_| AppError::invalid_webhook())`.
abbrev or_invalid : {A : Type 0} → Option A → Result AppError A
or_invalid o = ok_or o invalid_webhook

unfoldable pub from_request : Parsers → Request → Result AppError WebhookRequest
unfolding validate_content_type required_header map_body_rejection parse_delivery_id Signature.parse
    Names.new
from_request parsers request = do
  _ ← validate_content_type request
  event_type ← required_header parsers request (lit "X-GitHub-Event")
  delivery ← required_header parsers request (lit "X-GitHub-Delivery")
  delivery_id ← or_invalid (parse_delivery_id parsers.parse_uuid delivery)
  encoded ← required_header parsers request (lit "X-Hub-Signature-256")
  signature ← map_err (λ e. invalid_webhook) (Signature.parse parsers.decode_hex encoded)
  body ← map_err map_body_rejection request.body
  full_name ← or_invalid (parsers.full_name body)
  repository_name ← or_invalid (Names.new full_name)
  ok (record {
    body = body;
    repository_name = repository_name;
    event_type = event_type;
    delivery_id = delivery_id;
    signature = signature;
  })

-- What the handler answers where authentication fails.
unfoldable pub authentication_error : ℕ → WebhookAuthenticationError → AppError
authentication_error fresh unauthorized = unauthorized_webhook
authentication_error fresh unavailable = webhook_unavailable fresh

pub data WebhookResult : Type 0 where
  accepted malformed refused too_large unsupported unserved : WebhookResult

-- The `match`; `none` is its last arm, which the debug assertion forbids.
unfoldable pub known_result : ℕ → Option WebhookResult
known_result status =
    if status == 204
    then some accepted
    else if status == 400
    then some malformed
    else if status == 401
    then some refused
    else if status == 413
    then some too_large
    else if status == 415
    then some unsupported
    else if status == 503
    then some unserved
    else none

abbrev or_unserved : Option WebhookResult → WebhookResult
or_unserved none = unserved
or_unserved (some result) = result

unfoldable pub result_for_status : ℕ → WebhookResult
unfolding known_result
result_for_status status = or_unserved (known_result status)
