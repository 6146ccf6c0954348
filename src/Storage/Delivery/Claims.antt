-- ===== src/Storage/Delivery/Claims.antt =====
-- Histories of claims of src/storage/delivery_store.rs.
use github_webhook_exporter.Prelude.{
  ℕ, ◌≡◌, refl, ap, ◌==◌, List, [], ◌∷◌, ◌++◌, map, any, arith, mem, Text, Result, ok, err,
  mem-append, if◌then◌else◌,
}
use github_webhook_exporter.Domain.Delivery.{DeliveryId}
use github_webhook_exporter.Storage.Sql.{Session, on_pool}
use github_webhook_exporter.Storage.Tables.{DeliveryRow, Database}
use github_webhook_exporter.Storage.Delivery.{
  DeliveryClaim, new, duplicate, DeliveryStoreError, insert_delivery, claim,
}

abbrev pub claimed : Database → List ℕ
claimed d = map (λ r. r.delivery_id) d.processed_deliveries

any-claimed :
    (k : ℕ) (rows : List DeliveryRow)
    → any (λ (r : DeliveryRow). r.delivery_id == k) rows
      ≡ mem k (map (λ (r : DeliveryRow). r.delivery_id) rows)
any-claimed k [] = refl
any-claimed k (r ∷ rows) = ground (arith, any-claimed k rows)

map-append :
    (rows : List DeliveryRow) (r : DeliveryRow)
    → map (λ (x : DeliveryRow). x.delivery_id) (rows ++ r ∷ [])
      ≡ map (λ (x : DeliveryRow). x.delivery_id) rows ++ r.delivery_id ∷ []
map-append [] r = refl
map-append (x ∷ rows) r = ap (◌∷◌ x.delivery_id) (map-append rows r)

-- A served claim is new exactly if its delivery was not claimed before. It adds the delivery's
-- row, and nothing if one is there, so the time of the first receipt stands.
pub claim_served :
    (now : Text) (k : DeliveryId) (s : Session Database)
    → s.faults ≡ []
    → ((claim now k s).0 ≡ ok (if mem k.uuid (claimed s.committed) then duplicate else new))
      × ((claim now k s).1.committed.processed_deliveries ≡ (
          if mem k.uuid (claimed s.committed)
          then s.committed.processed_deliveries
          else s.committed.processed_deliveries
            ++ record { delivery_id = k.uuid; received_at = now } ∷ []))
unfolding claim on_pool insert_delivery
claim_served now k s h = (
  ground (arith, any-claimed k.uuid s.committed.processed_deliveries),
  ground (arith, any-claimed k.uuid s.committed.processed_deliveries),
)

claimed_served :
    (now : Text) (k : DeliveryId) (s : Session Database)
    → s.faults ≡ []
    → claimed (claim now k s).1.committed ≡ (
        if mem k.uuid (claimed s.committed)
        then claimed s.committed
        else claimed s.committed ++ k.uuid ∷ [])
claimed_served now k s h = ground (
  arith,
  claim_served now k s h,
  map-append s.committed.processed_deliveries (record { delivery_id = k.uuid; received_at = now }),
)

-- A claim that fails has recorded nothing.
pub claim_fails_clean :
    (now : Text) (k : DeliveryId) (s : Session Database) (e : DeliveryStoreError)
    → (claim now k s).0 ≡ err e
    → (claim now k s).1.committed ≡ s.committed
unfolding claim on_pool insert_delivery
claim_fails_clean now k s e h = ground arith

-- A history of claims, each with the clock's text.
pub run_claims :
    List (Text × DeliveryId) → Session Database → List (Result DeliveryStoreError DeliveryClaim)
run_claims [] s = []
run_claims ((now, k) ∷ rest) s = (claim now k s).0 ∷ run_claims rest (claim now k s).1

-- The answers of an ideal set of identifiers.
pub first_sightings :
    List ℕ → List (Text × DeliveryId) → List (Result DeliveryStoreError DeliveryClaim)
first_sightings seen [] = []
first_sightings seen ((now, k) ∷ rest) =
    (if mem k.uuid seen then ok duplicate else ok new) ∷ first_sightings (k.uuid ∷ seen) rest

claim-served_faults :
    (now : Text) (k : DeliveryId) (s : Session Database)
    → s.faults ≡ []
    → (claim now k s).1.faults ≡ []
unfolding claim on_pool insert_delivery
claim-served_faults now k s h = ground arith

SameMembers : List ℕ → List ℕ → Type 0
SameMembers xs ys = (j : ℕ) → mem j xs ≡ mem j ys

SameMembers-claim :
    (now : Text) (k : DeliveryId) (s : Session Database) (seen : List ℕ)
    → s.faults ≡ []
    → SameMembers (claimed s.committed) seen
    → SameMembers (claimed (claim now k s).1.committed) (k.uuid ∷ seen)
unfolding SameMembers
SameMembers-claim now k s seen h same j = ground (
  arith,
  claimed_served now k s h,
  same j,
  same k.uuid,
  mem-append j (claimed s.committed) (k.uuid ∷ []),
)

history :
    (claims : List (Text × DeliveryId)) (s : Session Database) (seen : List ℕ)
    → s.faults ≡ []
    → SameMembers (claimed s.committed) seen
    → run_claims claims s ≡ first_sightings seen claims
unfolding run_claims first_sightings SameMembers
history [] s seen h same = refl
history ((now, k) ∷ rest) s seen h same = ground (
  arith,
  claim_served now k s h,
  same k.uuid,
  history rest (claim now k s).1 (k.uuid ∷ seen) (claim-served_faults now k s h)
      (SameMembers-claim now k s seen h same),
)

-- In a history of served claims, a delivery is new at its first claim and a duplicate at every
-- later one, and at every one if the database holds it at the start.
pub claims_once :
    (claims : List (Text × DeliveryId)) (s : Session Database)
    → s.faults ≡ []
    → run_claims claims s ≡ first_sightings (claimed s.committed) claims
claims_once claims s h = unfold SameMembers in history claims s (claimed s.committed) h (λ j. refl)
