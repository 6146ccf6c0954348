-- ===== src/Storage/Delivery.antt =====
-- src/storage/delivery_store.rs: durable claims of webhook deliveries.
pub mod Claims
mod Tests
use github_webhook_exporter.Prelude.{
  ℕ, ◌==◌, Option, List, [], ◌∷◌, ◌++◌, any, some, none, Text, Result, ok, err, ok_or,
  if◌then◌else◌,
}
use github_webhook_exporter.Domain.Time.{TimeFormat}
use github_webhook_exporter.Domain.Delivery.{DeliveryId}
use github_webhook_exporter.Storage.Sql.{
  SqlxError, sqlite_is_busy_or_locked, Sql, on_pool, lift, ◌>>=◌,
}
use github_webhook_exporter.Storage.Tables.{DeliveryRow, Database}
use github_webhook_exporter.Storage.Prune.{Columns, prune, prune_batch_size}

pub data DeliveryClaim : Type 0 where
  new duplicate : DeliveryClaim

pub data DeliveryStoreError : Type 0 where
  unavailable internal : DeliveryStoreError

unfoldable pub map_sqlx_error : SqlxError → DeliveryStoreError
map_sqlx_error e = if sqlite_is_busy_or_locked e then unavailable else internal

-- `INSERT … ON CONFLICT(delivery_id) DO NOTHING`, with `rows_affected`; `now` is SQLite's clock.
unfoldable pub insert_delivery : ℕ → Text → Database → Result SqlxError (ℕ × Database)
insert_delivery uuid now d =
    if any (λ (r : DeliveryRow). r.delivery_id == uuid) d.processed_deliveries
    then ok (0, d)
    else ok (
      1,
      record d {
        processed_deliveries =
            d.processed_deliveries ++ record { delivery_id = uuid; received_at = now } ∷ [];
      },
    )

unfoldable pub claim : Text → DeliveryId → Sql Database DeliveryStoreError DeliveryClaim
unfolding on_pool insert_delivery map_sqlx_error
claim now delivery = do
  rows_affected ← on_pool map_sqlx_error (insert_delivery delivery.uuid now)
  lift (ok (if rows_affected == 1 then new else duplicate))

abbrev pub delivery_columns : Columns DeliveryRow
delivery_columns = record { id = λ r. r.delivery_id; stamp = λ r. some r.received_at }

unfoldable pub prune_deliveries : Text → Database → Result SqlxError (ℕ × Database)
unfolding prune
prune_deliveries cutoff d =
    let (deleted, rows) = prune delivery_columns prune_batch_size cutoff d.processed_deliveries in
    ok (deleted, record d { processed_deliveries = rows })

unfoldable pub prune_batch : TimeFormat → ℕ → Sql Database DeliveryStoreError ℕ
unfolding on_pool prune_deliveries map_sqlx_error
prune_batch f cutoff = do
  cutoff ← lift (ok_or (f.format_millis cutoff) internal)
  on_pool map_sqlx_error (prune_deliveries cutoff)
