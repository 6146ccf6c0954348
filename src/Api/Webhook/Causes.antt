-- ===== src/Api/Webhook/Causes.antt =====
-- What makes src/api/webhook.rs refuse a request, told of the request itself.
use github_webhook_exporter.Prelude.{
  ℕ, ◌≡◌, ◌≢◌, ◌⊎◌, ◌↔◌, ◌∙◌, refl, sym, ap, inl, inr, Bool-cases, List, [], ◌∷◌, Text, lit,
  text_eq, text_eq→eq, text_eq_refl, Option, none, some, ok, err, ok_or, ok_inj, err_inj,
  ok_not_err, err_not_ok, true_not_false,
}
use github_webhook_exporter.Prelude.Options.{bound_some, some_inj}
use github_webhook_exporter.Domain.Delivery.{DeliveryId, parse_delivery_id}
use github_webhook_exporter.Security.Names
use github_webhook_exporter.Security.Names.{CanonicalRepositoryName}
use github_webhook_exporter.Security.Signature
use github_webhook_exporter.Security.Signature.{WebhookSignature}
use github_webhook_exporter.Api.Errors.{
  AppError, invalid_webhook, webhook_payload_too_large, unsupported_webhook_media_type,
}
use github_webhook_exporter.Api.Webhook.{
  Request, Parsers, json_content_type, content_type_of, nonempty, required_header,
}

-- A header that is there, and whose value is a text that is not empty.
abbrev pub Reads : Parsers → Request → Text → Text → Type 0
Reads parsers request name value =
    (bytes : List ℕ) × (request.header name ≡ some bytes)
    × (parsers.to_str bytes ≡ some value)
    × (value ≢ [])

-- The headers of a webhook, apart from its content type.
pub record Headers (parsers : Parsers) (request : Request) : Type 0 where
  pub event : Text
  pub delivery : Text
  pub delivery_id : DeliveryId
  pub encoded : Text
  pub signature : WebhookSignature
  pub event_read : Reads parsers request (lit "X-GitHub-Event") event
  pub delivery_read : Reads parsers request (lit "X-GitHub-Delivery") delivery
  pub identified : parse_delivery_id parsers.parse_uuid delivery ≡ some delivery_id
  pub encoded_read : Reads parsers request (lit "X-Hub-Signature-256") encoded
  pub signed : Signature.parse parsers.decode_hex encoded ≡ ok signature

abbrev pub IsJson : Request → Type 0
IsJson request = request.header (lit "Content-Type") ≡ some json_content_type

-- A body that names a repository.
abbrev pub Named : Parsers → List ℕ → Type 0
Named parsers body =
    (full_name : Text) × (name : CanonicalRepositoryName) × (parsers.full_name body
      ≡ some full_name)
    × (Names.new full_name ≡ some name)

abbrev pub Unsupported : Request → Type 0
Unsupported request =
    (v : List ℕ) × (request.header (lit "Content-Type") ≡ some v) × (v ≢ json_content_type)

-- The content type and the headers are as they should be.
abbrev pub Headed : Parsers → Request → Type 0
Headed parsers request = IsJson request × Headers parsers request

abbrev pub Malformed : Parsers → Request → Type 0
Malformed parsers request =
    (request.header (lit "Content-Type") ≡ none)
    ⊎ (IsJson request × (¬ Headers parsers request))
    ⊎ (Headed parsers request × ((status : ℕ) × (request.body ≡ err status) × (status ≢ 413)))
    ⊎ (Headed parsers request
        × ((body : List ℕ) × (request.body ≡ ok body) × (¬ Named parsers body)))

-- Why a request is refused, with the error that says so.
abbrev pub Cause : Parsers → Request → AppError → Type 0
Cause parsers request e =
    ((e ≡ unsupported_webhook_media_type) × Unsupported request)
    ⊎ ((e ≡ webhook_payload_too_large) × Headed parsers request × (request.body ≡ err 413))
    ⊎ ((e ≡ invalid_webhook) × Malformed parsers request)

pub IsJson-cases :
    (request : Request) (o : Option (List ℕ))
    → request.header (lit "Content-Type") ≡ o
    → (u : Unit {0}) → content_type_of o ≡ ok u
    → IsJson request
IsJson-cases request none h u k = absurd (err_not_ok k)
IsJson-cases request (some v) h u k = elim (Bool-cases (text_eq v json_content_type)) [
  | inl same ↦ h ∙ ap some (text_eq→eq v json_content_type same)
  | inr differs ↦ absurd (err_not_ok (rw differs at k))
]

pub content_type_errors :
    (parsers : Parsers) (request : Request) (o : Option (List ℕ)) (e : AppError)
    → request.header (lit "Content-Type") ≡ o
    → content_type_of o ≡ err e
    → Cause parsers request e
content_type_errors parsers request none e h k = inr (inr (sym (err_inj _ _ k), inl h))
content_type_errors parsers request (some v) e h k =
    elim (Bool-cases (text_eq v json_content_type)) [
      | inl same ↦ absurd (ok_not_err (rw same at k))
      | inr differs ↦ inl (
        sym (err_inj _ _ (rw differs at k)),
        (v, h, λ json. true_not_false (sym (text_eq_refl json_content_type) ∙ rw json at differs)),
      )
    ]

pub ok_or_inv : {A : Type 0} (o : Option A) (a : A) → ok_or o invalid_webhook ≡ ok a → o ≡ some a
ok_or_inv none a h = absurd (err_not_ok h)
ok_or_inv (some b) a h = ap some (ok_inj b a h)

nonempty_some : (s t : Text) → nonempty s ≡ some t → (s ≡ t) × (t ≢ [])
nonempty_some [] t h = cc
nonempty_some (c ∷ s) t h = let same = some_inj (c ∷ s) t h in (same, rw (← same) (λ e. cc))

ok_nonempty : (s : Text) → s ≢ [] → ok_or (nonempty s) invalid_webhook ≡ ok s
ok_nonempty [] h = absurd (h refl)
ok_nonempty (c ∷ s) h = refl

-- A header is required exactly as it reads.
pub required_header-Reads :
    (parsers : Parsers) (request : Request) (name value : Text)
    → (required_header parsers request name ≡ ok value) ↔ Reads parsers request name value
unfolding required_header
required_header-Reads parsers request name value = (
  λ h.
      (let (text, read, full) = bound_some _ nonempty value (ok_or_inv _ value h) in
        let (bytes, there, shown) = bound_some (request.header name) parsers.to_str text read in
        let (same, nonempty) = nonempty_some text value full in
        (bytes, there, shown ∙ ap some same, nonempty)),
  λ (bytes, there, shown, full). rw (there, shown) (ok_nonempty value full),
)

pub or_invalid_error :
    {A : Type 0} (o : Option A) (e : AppError)
    → ok_or o invalid_webhook ≡ err e
    → (e ≡ invalid_webhook) × (o ≡ none)
or_invalid_error none e h = (sym (err_inj _ _ h), refl)
or_invalid_error (some a) e h = cc

required_header_error :
    (parsers : Parsers) (request : Request) (name : Text) (e : AppError)
    → required_header parsers request name ≡ err e
    → e ≡ invalid_webhook
unfolding required_header
required_header_error parsers request name e h = (or_invalid_error _ e h).0

-- A header that is refused does not read.
pub required_header_invalid :
    (parsers : Parsers) (request : Request) (name : Text) (e : AppError)
    → required_header parsers request name ≡ err e
    → (e ≡ invalid_webhook) × ((value : Text) → ¬ Reads parsers request name value)
required_header_invalid parsers request name e h = (
  required_header_error parsers request name e h,
  λ value reads. ok_not_err (sym ((required_header-Reads parsers request name value).1 reads) ∙ h),
)

-- A header reads as one text only.
pub Reads-unique :
    (parsers : Parsers) (request : Request) (name v w : Text)
    → required_header parsers request name ≡ ok v
    → Reads parsers request name w
    → v ≡ w
Reads-unique parsers request name v w h reads =
    ok_inj v w (sym h ∙ (required_header-Reads parsers request name w).1 reads)
