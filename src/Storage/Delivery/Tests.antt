-- ===== src/Storage/Delivery/Tests.antt =====
-- The theorems on deliveries, at a table with two of them.
use github_webhook_exporter.Prelude.{◌≡◌, refl, [], ◌∷◌, List, Text}
use github_webhook_exporter.Fixtures.{connected, tables}
use github_webhook_exporter.Domain.Delivery.{DeliveryId}
use github_webhook_exporter.Storage.Delivery.Claims.{
  claimed, run_claims, first_sightings, claims_once,
}

abbrev delivery : DeliveryId
delivery = record { uuid = 102 }

abbrev history : List (Text × DeliveryId)
history = (60 ∷ [], delivery) ∷ (61 ∷ [], record { uuid = 100 }) ∷ (62 ∷ [], delivery) ∷ []

claims_once_example : run_claims history connected ≡ first_sightings (claimed tables) history
claims_once_example = claims_once history connected refl
