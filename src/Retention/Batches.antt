-- ===== src/Retention/Batches.antt =====
-- A store of src/retention.rs whose batches run the bounded deletion on one table.
use github_webhook_exporter.Prelude.{
  ℕ, Bool, false, ◌*◌, ◌<◌, ◌≢◌, ◌≡◌, Option-cases, inl, inr, none, some, [], List, map, keep,
  length, Text, Distinct,
}
use github_webhook_exporter.Storage.Sql.{Session}
use github_webhook_exporter.Storage.Tables.{Database}
use github_webhook_exporter.Storage.Prune.{Columns, eligible, prune, prune_batch_size}
use github_webhook_exporter.Storage.Prune.Count.{prune-count, prune-keeps, prune-Distinct}
use github_webhook_exporter.Retention.{
  PrunableStore, World, Report, completed, full_prune_batch_size, prune_store,
}
use github_webhook_exporter.Retention.Drain.{DrainLaws, prune_store_completes}

-- What a batch does to the rows of its table: nothing where it fails, and the deletion where it
-- is served. Where SQLite serves every call it does not fail.
pub record BatchLaws {A : Type 0} (store : PrunableStore (Session Database)) (cutoff : ℕ)
    (columns : Columns A) (rows : Session Database → List A) (text : Text) : Type 0 where
  pub failed_rows :
      (s : Session Database)
      → (store.prune_batch_erased cutoff s).0 ≡ none
      → rows (store.prune_batch_erased cutoff s).1 ≡ rows s
  pub served_rows :
      (s : Session Database) (n : ℕ)
      → (store.prune_batch_erased cutoff s).0 ≡ some n
      → (n ≡ (prune columns prune_batch_size text (rows s)).0)
        × (rows (store.prune_batch_erased cutoff s).1
            ≡ (prune columns prune_batch_size text (rows s)).1)
  pub undisturbed :
      (s : Session Database)
      → s.faults ≡ []
      → ((store.prune_batch_erased cutoff s).1.faults ≡ [])
        × ((store.prune_batch_erased cutoff s).0 ≢ none)

-- The number of rows older than the cutoff, and the primary key, of a table.
module _ {A : Type 0} (columns : Columns A) (rows : Session Database → List A) (text : Text) where
  abbrev pub expired : Session Database → ℕ
  expired s = length (keep (eligible columns text) (rows s))

  abbrev pub DistinctRows : Session Database → Type 0
  DistinctRows s = Distinct (map columns.id (rows s))

  -- The rows are distinct, and SQLite serves every call.
  abbrev pub Quiet : Session Database → Type 0
  Quiet s = DistinctRows s × (s.faults ≡ [])

  module _ (store : PrunableStore (Session Database)) (cutoff : ℕ)
      (laws : BatchLaws store cutoff columns rows text) where
    keeps_distinct :
        (s : Session Database) → DistinctRows s → DistinctRows (store.prune_batch_erased cutoff s).1
    keeps_distinct s d = elim (Option-cases (store.prune_batch_erased cutoff s).0) [
      | inl e ↦ rw (laws.failed_rows s e) d
      | inr (n, e) ↦
          rw (laws.served_rows s n e).1 (prune-Distinct columns prune_batch_size text (rows s) d)
    ]

    -- Such batches meet the laws of a store that is drained.
    pub batch-DrainLaws : DrainLaws store cutoff Quiet expired
    batch-DrainLaws = record {
      keeps = λ s q. (keeps_distinct s q.0, (laws.undisturbed s q.1).0);
      failed_batch = λ s q e. rw (laws.failed_rows s e);
      served_batch = λ s n q e.
          let (count, left) = laws.served_rows s n e in
          (
            rw count (prune-count columns prune_batch_size text (rows s) q.0),
            rw (left, count) (prune-keeps columns prune_batch_size text (rows s) q.0).1,
          );
    }

    pub batches_complete :
        (shutdown : ℕ → Bool) (fuel : ℕ) (w : World (Session Database))
        → ((k : ℕ) → shutdown k ≡ false)
        → Quiet w.store
        → expired w.store < fuel * full_prune_batch_size
        → (r : Report) × (w' : World (Session Database)) × (prune_store shutdown fuel store
              (some cutoff)
              w
            ≡ some (r, w'))
          × (r.outcome ≡ completed)
          × (expired w'.store ≡ 0)
    batches_complete shutdown fuel w go q h =
        prune_store_completes shutdown store cutoff Quiet expired batch-DrainLaws go
          (λ s quiet. (laws.undisturbed s quiet.1).1) fuel w q h
