-- ===== src/Api/Webhook/Requests.antt =====
-- The requests that src/api/webhook.rs accepts, and the errors of those that it refuses.
use github_webhook_exporter.Prelude.{
  ℕ, ◌≡◌, ◌∙◌, refl, sym, ap, subst, ◌==◌, ==_iff, inl, inr, Bool-cases, List, Option, none, some,
  lit, Text, Result, ok, err, ok_or, map_err, ◌>>=◌, ok_inj, err_inj, ok_not_err, err_not_ok,
  bound_err, true_not_false,
}
use github_webhook_exporter.Prelude.Options.{some_inj, some_not_none}
use github_webhook_exporter.Domain.Delivery.{DeliveryId, parse_delivery_id}
use github_webhook_exporter.Security.Names
use github_webhook_exporter.Security.Names.{CanonicalRepositoryName}
use github_webhook_exporter.Security.Signature
use github_webhook_exporter.Security.Signature.{
  WebhookAuthenticationError, WebhookSignature, unauthorized, unavailable,
}
use github_webhook_exporter.Api.Errors.{AppError, invalid_webhook, Response, into_response}
use github_webhook_exporter.Api.Webhook.Causes.{
  required_header-Reads, Headers, Headed, IsJson, Named, Cause, IsJson-cases, content_type_errors,
  ok_or_inv, Reads, Reads-unique, required_header_invalid, or_invalid_error,
}
use github_webhook_exporter.Api.Webhook.{
  Request, Parsers, WebhookRequest, validate_content_type, required_header, map_body_rejection,
  or_invalid, from_request, authentication_error, known_result, WebhookResult, unsupported,
  too_large, malformed, refused, unserved,
}

content_invalid :
    {A : Type 0} (parsers : Parsers) (request : Request) (body : List ℕ) (o : Option A)
    (e : AppError)
    → Headed parsers request
    → request.body ≡ ok body
    → (o ≡ none → ¬ Named parsers body)
    → ok_or o invalid_webhook ≡ err e
    → Cause parsers request e
content_invalid parsers request body o e headed there lacks h =
    let (same, missing) = or_invalid_error o e h in
    inr (inr (same, inr (inr (inr (headed, (body, there, lacks missing))))))

body_errors :
    (parsers : Parsers) (request : Request) (r : Result ℕ (List ℕ)) (e : AppError)
    → Headed parsers request
    → request.body ≡ r
    → map_err map_body_rejection r ≡ err e
    → Cause parsers request e
unfolding map_body_rejection
body_errors parsers request (ok body) e headed there h = cc
body_errors parsers request (err status) e headed there h = elim (Bool-cases (status == 413)) [
  | inl large ↦ inr (
      inl (sym (err_inj _ _ (rw large at h)), headed, there ∙ ap err ((==_iff status 413).0 large)))
  | inr small ↦ inr (
      inr (
        sym (err_inj _ _ (rw small at h)),
        inr (
            inr (
              inl (
                headed,
                (status, there, λ e. true_not_false (sym ((==_iff status 413).1 e) ∙ small)),
              ))),
      ))
]

body_read :
    (r : Result ℕ (List ℕ)) (body : List ℕ) → map_err map_body_rejection r ≡ ok body → r ≡ ok body
unfolding map_body_rejection
body_read (ok b) body h = ap ok (ok_inj b body h)
body_read (err status) body h = absurd (err_not_ok h)

-- The body's part of the chain.
content_errors :
    (parsers : Parsers) (request : Request) (k : List ℕ → CanonicalRepositoryName → WebhookRequest)
    → Headed parsers request
    → (e : AppError)
    → (map_err map_body_rejection request.body >>= λ body.
        or_invalid (parsers.full_name body) >>= λ full_name.
        or_invalid (Names.new full_name) >>= λ name. ok (k body name))
      ≡ err e
    → Cause parsers request e
content_errors parsers request k headed e h =
    let P : AppError → Type 0 = Cause parsers request in
    bound_err P (map_err map_body_rejection request.body) _
      (λ e x. body_errors parsers request request.body e headed refl x)
      (λ b e there h.
        (let body = body_read request.body b there in
          bound_err P (or_invalid (parsers.full_name b)) _
            (λ e x.
              content_invalid parsers request b (parsers.full_name b) e headed body
                (λ missing (n, name, named, _). some_not_none (sym named ∙ missing)) x)
            (λ n e found h.
              bound_err P (or_invalid (Names.new n)) _
                (λ e x.
                  content_invalid parsers request b (Names.new n) e headed body
                    (λ missing (m, name, named, valid). some_not_none (
                      sym valid
                      ∙ ap Names.new (some_inj m n (sym named ∙ ok_or_inv _ n found))
                      ∙ missing))
                    x)
                (λ _ e _ h. absurd (ok_not_err h)) e h)
            e h))
      e h

headless :
    (parsers : Parsers) (request : Request) (e : AppError)
    → IsJson request
    → (e ≡ invalid_webhook) × (¬ Headers parsers request)
    → Cause parsers request e
headless parsers request e json (same, lacks) = inr (inr (same, inr (inl (json, lacks))))

refused_signature :
    {E A : Type 0} (r : Result E A) (e : AppError)
    → map_err (λ x. invalid_webhook) r ≡ err e
    → (e ≡ invalid_webhook) × ((a : A) → ¬ r ≡ ok a)
refused_signature (ok a) e h = cc
refused_signature (err x) e h = (sym (err_inj _ _ h), λ a k. ok_not_err (sym k))

read_signature :
    {E A : Type 0} (r : Result E A) (a : A) → map_err (λ x. invalid_webhook) r ≡ ok a → r ≡ ok a
read_signature (ok b) a h = ap ok (ok_inj b a h)
read_signature (err x) a h = absurd (err_not_ok h)

module _ (parsers : Parsers) (request : Request) (json : IsJson request) where
  unread :
      (name : Text) (e : AppError)
      → required_header parsers request name ≡ err e
      → (Headers parsers request → (value : Text) × Reads parsers request name value)
      → Cause parsers request e
  unread name e h reads =
      let (same, none_read) = required_header_invalid parsers request name e h in
      headless parsers request e json
        (same, λ x. (let (value, read) = reads x in none_read value read))

  -- The signature's part of the chain, and what follows.
  signed_errors :
      (k : WebhookSignature → List ℕ → CanonicalRepositoryName → WebhookRequest)
      (event delivery : Text) (delivery_id : DeliveryId)
      → Reads parsers request (lit "X-GitHub-Event") event
      → Reads parsers request (lit "X-GitHub-Delivery") delivery
      → parse_delivery_id parsers.parse_uuid delivery ≡ some delivery_id
      → (e : AppError)
      → (required_header parsers request (lit "X-Hub-Signature-256") >>= λ encoded.
          map_err (λ x. invalid_webhook) (Signature.parse parsers.decode_hex encoded)
          >>= λ signature. map_err map_body_rejection request.body >>= λ body.
              or_invalid (parsers.full_name body) >>= λ full_name.
              or_invalid (Names.new full_name) >>= λ name. ok (k signature body name))
        ≡ err e
      → Cause parsers request e
  signed_errors k event delivery id event_read delivery_read identified e h =
      let P : AppError → Type 0 = Cause parsers request in
      let decode : Text → Result WebhookAuthenticationError WebhookSignature =
        Signature.parse parsers.decode_hex in
      bound_err P (required_header parsers request (lit "X-Hub-Signature-256")) _
        (λ e x. unread _ e x (λ h. (h.encoded, h.encoded_read)))
        (λ s e got h.
          bound_err P (map_err (λ x. invalid_webhook) (decode s)) _
            (λ e x.
              (let (same, bad) = refused_signature (decode s) e x in
                headless parsers request e json (
                  same,
                  λ h. bad h.signature (
                      ap decode (Reads-unique parsers request _ s h.encoded got h.encoded_read)
                      ∙ h.signed),
                )))
            (λ signature e read h.
              content_errors parsers request (k signature)
                (
                  json,
                  record {
                    event = event;
                    delivery = delivery;
                    delivery_id = id;
                    encoded = s;
                    signature = signature;
                    event_read = event_read;
                    delivery_read = delivery_read;
                    identified = identified;
                    encoded_read = (required_header-Reads parsers request _ s).0 got;
                    signed = read_signature (decode s) signature read;
                  },
                )
                e h)
            e h)
        e h

  misidentified :
      (delivery : Text) (e : AppError)
      → required_header parsers request (lit "X-GitHub-Delivery") ≡ ok delivery
      → or_invalid (parse_delivery_id parsers.parse_uuid delivery) ≡ err e
      → Cause parsers request e
  misidentified delivery e got h =
      let (same, missing) = or_invalid_error (parse_delivery_id parsers.parse_uuid delivery) e h in
      headless parsers request e json (
        same,
        λ x.
            (let unique = Reads-unique parsers request _ delivery x.delivery got x.delivery_read in
              some_not_none (
                sym x.identified
                ∙ ap (parse_delivery_id parsers.parse_uuid) (sym unique)
                ∙ missing)),
      )

pub from_request-Cause :
    (parsers : Parsers) (request : Request) (e : AppError)
    → from_request parsers request ≡ err e
    → Cause parsers request e
unfolding from_request validate_content_type
from_request-Cause parsers request e h =
    let P : AppError → Type 0 = Cause parsers request in
    bound_err P (validate_content_type request) _
      (λ e k. content_type_errors parsers request (request.header (lit "Content-Type")) e refl k)
      (λ u e typed h.
        (let json = IsJson-cases request (request.header (lit "Content-Type")) refl u typed in
          bound_err P (required_header parsers request (lit "X-GitHub-Event")) _
            (λ e k. unread parsers request json _ e k (λ x. (x.event, x.event_read)))
            (λ event e got_event h.
              bound_err P (required_header parsers request (lit "X-GitHub-Delivery")) _
                (λ e k. unread parsers request json _ e k (λ x. (x.delivery, x.delivery_read)))
                (λ d e got h.
                  bound_err P (or_invalid (parse_delivery_id parsers.parse_uuid d)) _
                    (λ e k. misidentified parsers request json d e got k)
                    (λ id e found h.
                      signed_errors parsers request json _ event d id
                        ((required_header-Reads parsers request _ event).0 got_event)
                        ((required_header-Reads parsers request _ d).0 got) (ok_or_inv _ id found) e
                        h)
                    e h)
                e h)
            e h))
      e h

-- The response to an error, with a status that the request's metric knows.
abbrev pub Answered : AppError → Type 0
Answered e =
    (r : Response) × (w : WebhookResult) × (into_response e ≡ some r)
    × (known_result r.status ≡ some w)

refusal-Answered :
    (parsers : Parsers) (request : Request) (e : AppError) → Cause parsers request e → Answered e
unfolding into_response known_result
refusal-Answered parsers request e (inl (same, _)) =
    subst Answered (sym same) (_, unsupported, refl, refl)
refusal-Answered parsers request e (inr (inl (same, _, _))) =
    subst Answered (sym same) (_, too_large, refl, refl)
refusal-Answered parsers request e (inr (inr (same, _))) =
    subst Answered (sym same) (_, malformed, refl, refl)

-- So is a failed authentication.
pub authentication-Answered :
    (fresh : ℕ) (a : WebhookAuthenticationError) → Answered (authentication_error fresh a)
unfolding into_response known_result authentication_error
authentication-Answered fresh unauthorized = (_, refused, refl, refl)
authentication-Answered fresh unavailable = (_, unserved, refl, refl)

-- The error of a request that is refused is answered without a panic, and with a status that the
-- request's metric knows.
pub refusals-Answered :
    (parsers : Parsers) (request : Request) (e : AppError)
    → from_request parsers request ≡ err e
    → Answered e
refusals-Answered parsers request e h =
    refusal-Answered parsers request e (from_request-Cause parsers request e h)
