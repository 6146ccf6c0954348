-- ===== src/Storage/MergeQueue/Atomic.antt =====
-- The failures of src/storage/merge_queue_store.rs and the committed database.
use github_webhook_exporter.Prelude.{[], ℕ, ◌≡◌, err, arith, Option, none, some, List}
use github_webhook_exporter.Domain.Time.{TimeFormat}
use github_webhook_exporter.Domain.MergeQueue.{PullRequestNumber, QueueTimestamp, QueueCompletion}
use github_webhook_exporter.Storage.Sql.{Session, begin, commit, in_transaction, on_pool}
use github_webhook_exporter.Storage.Tables.{Database}
use github_webhook_exporter.Storage.MergeQueue.{
  MergeQueueStoreError, enqueue, classify, complete, prune_completed_batch, prune_attempts,
}

-- An enqueue that fails, at whichever call, leaves the committed database as it was.
pub enqueue_fails_clean :
    (repository : ℕ) (number : PullRequestNumber) (t : QueueTimestamp) (s : Session Database)
    (e : MergeQueueStoreError)
    → (enqueue repository number t s).0 ≡ err e
    → (enqueue repository number t s).1.committed ≡ s.committed
unfolding enqueue begin commit in_transaction
enqueue_fails_clean repository number t s e h = ground arith

classify_committed :
    (f : TimeFormat) (repository : ℕ) (number : PullRequestNumber) (found : Option (List ℕ))
    (s : Session Database)
    → (classify f repository number found s).1.committed ≡ s.committed
unfolding classify in_transaction
classify_committed f repository number none s = ground arith
classify_committed f repository number (some t) s = ground arith

-- A completion that fails, be it after its UPDATE, leaves the committed database as it was.
pub complete_fails_clean :
    (f : TimeFormat) (repository : ℕ) (number : PullRequestNumber) (c : QueueCompletion)
    (s : Session Database) (e : MergeQueueStoreError)
    → (complete f repository number c s).0 ≡ err e
    → (complete f repository number c s).1.committed ≡ s.committed
unfolding complete begin commit in_transaction
complete_fails_clean f repository number c s e h = grind (arith, classify_committed)

-- A pruning batch that fails leaves the committed database as it was.
pub prune_fails_clean :
    (f : TimeFormat) (cutoff : ℕ) (s : Session Database) (e : MergeQueueStoreError)
    → (prune_completed_batch f cutoff s).0 ≡ err e
    → (prune_completed_batch f cutoff s).1.committed ≡ s.committed
unfolding prune_completed_batch on_pool prune_attempts
prune_fails_clean f cutoff s e h = ground arith

pub enqueue_faults :
    (repository : ℕ) (n : PullRequestNumber) (t : QueueTimestamp) (s : Session Database)
    → s.faults ≡ []
    → (enqueue repository n t s).1.faults ≡ []
unfolding enqueue begin commit in_transaction
enqueue_faults repository n t s h = ground arith

pub complete_faults :
    (f : TimeFormat) (repository : ℕ) (n : PullRequestNumber) (c : QueueCompletion)
    (s : Session Database)
    → s.faults ≡ []
    → (complete f repository n c s).1.faults ≡ []
unfolding complete classify begin commit in_transaction
complete_faults f repository n c s h = grind arith
