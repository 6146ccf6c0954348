-- ===== src/Retention/Stores.antt =====
-- The stores of src/storage as the prunable stores of src/retention.rs.
use github_webhook_exporter.Prelude.{
  ℕ, Bool, false, ◌*◌, ◌<◌, ◌≢◌, ◌≡◌, Option, none, some, [], map, keep, length, arith, Text,
  Distinct, Result, ok, err,
}
use github_webhook_exporter.Domain.Time.{TimeFormat}
use github_webhook_exporter.Domain.MergeQueue.{from_datetime}
use github_webhook_exporter.Storage.Sql.{Session, on_pool}
use github_webhook_exporter.Storage.Tables.{Database}
use github_webhook_exporter.Storage.Prune.{eligible, prune, prune_batch_size}
use github_webhook_exporter.Storage.Prune.Count.{prune-count, prune-keeps, prune-Distinct}
use github_webhook_exporter.Storage.MergeQueue
use github_webhook_exporter.Storage.MergeQueue.{attempt_columns}
use github_webhook_exporter.Storage.Delivery
use github_webhook_exporter.Storage.Delivery.{delivery_columns}
use github_webhook_exporter.Retention.{
  PrunableStore, World, Report, completed, full_prune_batch_size, prune_store,
}
use github_webhook_exporter.Retention.Drain.{DrainLaws, prune_store_completes}

-- `map_err(|_| StorePruneFailure)`.
abbrev pub erase {ℓ} : {E : Type ℓ} → Result E ℕ → Option ℕ
erase (ok n) = some n
erase (err e) = none

unfoldable pub delivery_store : TimeFormat → PrunableStore (Session Database)
delivery_store f = record {
  prune_batch_erased = λ cutoff s. let (r, t) = Delivery.prune_batch f cutoff s in (erase r, t);
}

unfoldable pub merge_queue_store : TimeFormat → PrunableStore (Session Database)
merge_queue_store f = record {
  prune_batch_erased =
      λ cutoff s. let (r, t) = MergeQueue.prune_completed_batch f cutoff s in (erase r, t);
}

-- A cutoff with its text. The number of rows older than it, and the primary key, of each table.
module _ (f : TimeFormat) (cutoff : ℕ) (text : Text)
    (formats : f.format_millis cutoff ≡ some text) where
  abbrev pub expired_deliveries : Session Database → ℕ
  expired_deliveries s =
      length (keep (eligible delivery_columns text) s.committed.processed_deliveries)

  abbrev pub DistinctDeliveries : Session Database → Type 0
  DistinctDeliveries s = Distinct (map delivery_columns.id s.committed.processed_deliveries)

  served_deliveries :
      (s : Session Database) (n : ℕ)
      → ((delivery_store f).prune_batch_erased cutoff s).0 ≡ some n
      → (n ≡ (prune delivery_columns prune_batch_size text s.committed.processed_deliveries).0)
        × (((delivery_store f).prune_batch_erased cutoff s).1.committed.processed_deliveries
            ≡ (prune delivery_columns prune_batch_size text s.committed.processed_deliveries).1)
  unfolding delivery_store Delivery.prune_batch on_pool Delivery.prune_deliveries
  served_deliveries s n e = ground arith

  -- The batches of the store of deliveries keep its primary key, a failed one deletes nothing, and a
  -- served one deletes the rows older than the cutoff, up to 1,000.
  pub delivery_store-DrainLaws :
      DrainLaws (delivery_store f) cutoff DistinctDeliveries expired_deliveries
  unfolding delivery_store Delivery.prune_batch on_pool Delivery.prune_deliveries
  delivery_store-DrainLaws = record {
    keeps = λ s d. ground (
      arith,
      prune-Distinct delivery_columns prune_batch_size text s.committed.processed_deliveries d,
    );
    failed_batch = λ s d e. ground arith;
    served_batch = λ s n d e. (
      ground (
        arith,
        prune-count delivery_columns prune_batch_size text s.committed.processed_deliveries d,
      ),
      (let b = served_deliveries s n e in
          rw (b.1, b.0)
            (prune-keeps delivery_columns prune_batch_size text s.committed.processed_deliveries
              d).1),
    );
  }

  delivery_undisturbed :
      DrainLaws
        (delivery_store f)
        cutoff
        (λ s. DistinctDeliveries s × (s.faults ≡ []))
        expired_deliveries
  unfolding delivery_store Delivery.prune_batch on_pool Delivery.prune_deliveries
  delivery_undisturbed = record {
    keeps = λ s (d, quiet). (delivery_store-DrainLaws.keeps s d, ground arith);
    failed_batch = λ s (d, quiet) e. delivery_store-DrainLaws.failed_batch s d e;
    served_batch = λ s n (d, quiet) e. delivery_store-DrainLaws.served_batch s n d e;
  }

  delivery_served :
      (s : Session Database)
      → DistinctDeliveries s × (s.faults ≡ [])
      → ((delivery_store f).prune_batch_erased cutoff s).0 ≢ none
  unfolding delivery_store Delivery.prune_batch on_pool Delivery.prune_deliveries
  delivery_served s (d, quiet) e = ground arith

  -- With SQLite serving every call and no shutdown, distinct identifiers and a cutoff that can be
  -- shown, the retention of deliveries returns with fuel for one batch per 1,000 expired rows and
  -- one more, logs completion, and leaves no row older than the cutoff.
  pub delivery_retention_drains :
      (shutdown : ℕ → Bool) (fuel : ℕ) (w : World (Session Database))
      → ((k : ℕ) → shutdown k ≡ false)
      → DistinctDeliveries w.store
      → w.store.faults ≡ []
      → expired_deliveries w.store < fuel * full_prune_batch_size
      → (r : Report) × (w' : World (Session Database)) × (prune_store shutdown fuel
            (delivery_store f)
            (some cutoff)
            w
          ≡ some (r, w'))
        × (r.outcome ≡ completed)
        × (expired_deliveries w'.store ≡ 0)
  delivery_retention_drains shutdown fuel w go d quiet h =
      prune_store_completes shutdown (delivery_store f) cutoff
        (λ s. DistinctDeliveries s × (s.faults ≡ [])) expired_deliveries delivery_undisturbed go
        delivery_served fuel w (d, quiet) h

  abbrev pub expired_attempts : Session Database → ℕ
  expired_attempts s =
      length (keep (eligible attempt_columns text) s.committed.merge_queue_attempts)

  abbrev pub DistinctAttempts : Session Database → Type 0
  DistinctAttempts s = Distinct (map attempt_columns.id s.committed.merge_queue_attempts)

  served_attempts :
      (s : Session Database) (n : ℕ)
      → ((merge_queue_store f).prune_batch_erased cutoff s).0 ≡ some n
      → (n ≡ (prune attempt_columns prune_batch_size text s.committed.merge_queue_attempts).0)
        × (((merge_queue_store f).prune_batch_erased cutoff s).1.committed.merge_queue_attempts
            ≡ (prune attempt_columns prune_batch_size text s.committed.merge_queue_attempts).1)
  unfolding merge_queue_store MergeQueue.prune_completed_batch on_pool MergeQueue.prune_attempts
      from_datetime
  served_attempts s n e = ground arith

  -- The batches of the store of attempts keep its primary key, a failed one deletes nothing, and a
  -- served one deletes the rows older than the cutoff, up to 1,000.
  pub merge_queue_store-DrainLaws :
      DrainLaws (merge_queue_store f) cutoff DistinctAttempts expired_attempts
  unfolding merge_queue_store MergeQueue.prune_completed_batch on_pool MergeQueue.prune_attempts
      from_datetime
  merge_queue_store-DrainLaws = record {
    keeps = λ s d. ground (
      arith,
      prune-Distinct attempt_columns prune_batch_size text s.committed.merge_queue_attempts d,
    );
    failed_batch = λ s d e. ground arith;
    served_batch = λ s n d e. (
      ground (
        arith,
        prune-count attempt_columns prune_batch_size text s.committed.merge_queue_attempts d,
      ),
      (let b = served_attempts s n e in
          rw (b.1, b.0)
            (prune-keeps attempt_columns prune_batch_size text s.committed.merge_queue_attempts
              d).1),
    );
  }

  merge_queue_undisturbed :
      DrainLaws
        (merge_queue_store f)
        cutoff
        (λ s. DistinctAttempts s × (s.faults ≡ []))
        expired_attempts
  unfolding merge_queue_store MergeQueue.prune_completed_batch on_pool MergeQueue.prune_attempts
      from_datetime
  merge_queue_undisturbed = record {
    keeps = λ s (d, quiet). (merge_queue_store-DrainLaws.keeps s d, ground arith);
    failed_batch = λ s (d, quiet) e. merge_queue_store-DrainLaws.failed_batch s d e;
    served_batch = λ s n (d, quiet) e. merge_queue_store-DrainLaws.served_batch s n d e;
  }

  merge_queue_served :
      (s : Session Database)
      → DistinctAttempts s × (s.faults ≡ [])
      → ((merge_queue_store f).prune_batch_erased cutoff s).0 ≢ none
  unfolding merge_queue_store MergeQueue.prune_completed_batch on_pool MergeQueue.prune_attempts
      from_datetime
  merge_queue_served s (d, quiet) e = ground arith

  -- With SQLite serving every call and no shutdown, distinct identifiers and a cutoff that can be
  -- shown, the retention of ended attempts returns with fuel for one batch per 1,000 expired rows
  -- and one more, logs completion, and leaves no row older than the cutoff.
  pub merge_queue_retention_drains :
      (shutdown : ℕ → Bool) (fuel : ℕ) (w : World (Session Database))
      → ((k : ℕ) → shutdown k ≡ false)
      → DistinctAttempts w.store
      → w.store.faults ≡ []
      → expired_attempts w.store < fuel * full_prune_batch_size
      → (r : Report) × (w' : World (Session Database)) × (prune_store shutdown fuel
            (merge_queue_store f)
            (some cutoff)
            w
          ≡ some (r, w'))
        × (r.outcome ≡ completed)
        × (expired_attempts w'.store ≡ 0)
  merge_queue_retention_drains shutdown fuel w go d quiet h =
      prune_store_completes shutdown (merge_queue_store f) cutoff
        (λ s. DistinctAttempts s × (s.faults ≡ [])) expired_attempts merge_queue_undisturbed go
        merge_queue_served fuel w (d, quiet) h
