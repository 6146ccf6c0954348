-- ===== src/Domain/Delivery.antt =====
-- src/domain/delivery.rs: GitHub delivery identifiers. Parsing a UUID is the `uuid` crate's, a
-- parameter of the model.
use github_webhook_exporter.Prelude.{ℕ, Option, none, some, Text}

-- The 128-bit value of the UUID. Its encoding in lowercase hyphenated form is one to one, so the
-- table of claims is keyed by the value.
pub record DeliveryId : Type 0 where
  pub uuid : ℕ

-- `Uuid::parse_str`.
abbrev pub ParseUuid : Type 0
ParseUuid = Text → Option ℕ

abbrev wrap : Option ℕ → Option DeliveryId
wrap none = none
wrap (some uuid) = some (record { uuid = uuid })

-- `none` is `DeliveryIdError`.
unfoldable pub parse_delivery_id : ParseUuid → Text → Option DeliveryId
parse_delivery_id parse_str value = wrap (parse_str value)
