-- ===== src/Retention/Tests.antt =====
-- The theorems on retention, at a database with one expired delivery and one expired attempt.
use github_webhook_exporter.Prelude.{
  ℕ, ◌*◌, ◌+◌, ◌<◌, ◌≡◌, ◌≢◌, refl, Bool, true, false, Option, some, List, [], ◌∷◌, length, keep,
  arith, text_lt, min, not,
}
use github_webhook_exporter.Fixtures.{clock, connected, tables}
use github_webhook_exporter.Storage.Sql.{Session}
use github_webhook_exporter.Storage.Tables.{Database}
use github_webhook_exporter.Storage.Prune.{eligible, prune, prune_batch_size}
use github_webhook_exporter.Storage.Prune.Count.{prune-count, prune-keeps}
use github_webhook_exporter.Storage.Delivery
use github_webhook_exporter.Storage.Delivery.{delivery_columns}
use github_webhook_exporter.Retention.{
  World, Report, PrunableStore, RetentionPassOutcome, completed, pass_success,
  full_prune_batch_size, prune_store, prune_retention_workloads,
}
use github_webhook_exporter.Retention.Pass.{pass_success_lem, shutdown_stops, AllCompleted}
use github_webhook_exporter.Retention.Stores.{
  delivery_store, expired_deliveries, DistinctDeliveries, delivery_retention_drains,
}

abbrev cutoff : ℕ
cutoff = 25000000

abbrev never : ℕ → Bool
never k = false

abbrev always : ℕ → Bool
always k = true

abbrev start : World (Session Database)
start = record { store = connected; reads = 0 }

abbrev expired : Session Database → ℕ
expired = expired_deliveries clock cutoff (25 ∷ []) refl

distinct_deliveries : DistinctDeliveries clock cutoff (25 ∷ []) refl connected
distinct_deliveries = ground arith

few_deliveries : expired connected < 1 * full_prune_batch_size
unfolding eligible text_lt
few_deliveries = omega arith

delivery_retention_drains_example :
    (r : Report) × (w : World (Session Database)) × (prune_store never 1
        (delivery_store clock)
        (some cutoff)
        start
      ≡ some (r, w))
    × (r.outcome ≡ completed)
    × (expired w.store ≡ 0)
delivery_retention_drains_example =
    delivery_retention_drains clock cutoff (25 ∷ []) refl never 1 start (λ k. refl)
      distinct_deliveries refl few_deliveries

abbrev pruned : World (Session Database)
pruned = record {
  store = record connected {
    committed = record tables {
      processed_deliveries = record { delivery_id = 101; received_at = 50 ∷ [] } ∷ [];
    };
  };
  reads = 1;
}

abbrev workloads : List (PrunableStore (Session Database) × Option ℕ)
workloads = (delivery_store clock, some cutoff) ∷ []

passed :
    prune_retention_workloads never 1 workloads start
    ≡ some (pass_success, record pruned { reads = 2 })
unfolding prune_retention_workloads delivery_store Delivery.prune_batch prune eligible text_lt
passed = refl

pass_success_lem_example : AllCompleted never 1 workloads start
pass_success_lem_example =
    pass_success_lem never 1 workloads start (record pruned { reads = 2 }) passed

shutdown_stops_example :
    (o : RetentionPassOutcome) × (w : World (Session Database)) × (prune_retention_workloads always
        1 workloads start
      ≡ some (o, w))
    × (o ≢ pass_success)
    × (w.store ≡ connected)
shutdown_stops_example =
    shutdown_stops always 0 (delivery_store clock) (some cutoff) [] start (λ k later. refl)

prune-count_example :
    (prune delivery_columns prune_batch_size (25 ∷ []) tables.processed_deliveries).0
    ≡ min prune_batch_size
        (length (keep (eligible delivery_columns (25 ∷ [])) tables.processed_deliveries))
prune-count_example =
    prune-count delivery_columns prune_batch_size (25 ∷ []) tables.processed_deliveries
      distinct_deliveries

prune-keeps_example :
    (keep
        (λ r. not (eligible delivery_columns (25 ∷ []) r))
        (prune delivery_columns prune_batch_size (25 ∷ []) tables.processed_deliveries).1
      ≡ keep (λ r. not (eligible delivery_columns (25 ∷ []) r)) tables.processed_deliveries)
    × (length (
            keep
              (eligible delivery_columns (25 ∷ []))
              (prune delivery_columns prune_batch_size (25 ∷ []) tables.processed_deliveries).1)
          + (prune delivery_columns prune_batch_size (25 ∷ []) tables.processed_deliveries).0
        ≡ length (keep (eligible delivery_columns (25 ∷ [])) tables.processed_deliveries))
prune-keeps_example =
    prune-keeps delivery_columns prune_batch_size (25 ∷ []) tables.processed_deliveries
      distinct_deliveries
