-- ===== src/Api/PullRequest.antt =====
-- src/api/pull_request.rs: the transitions of the merge queue that pull-request events cause. The
-- tracing spans, and the head commit that only they show, are left out.
pub mod Attempts
mod Tests
use github_webhook_exporter.Prelude.{
  ℕ, Bool, true, false, Option, none, some, List, Text, ℤ, Result, ok, err,
}
use github_webhook_exporter.Domain.Time.{TimeFormat}
use github_webhook_exporter.Domain.MergeQueue.{
  PullRequestNumber, new, QueueTimestamp, parse_timestamp, from_datetime, duration_since,
  QueueCompletion, merged_completion, dequeued_completion,
}
use github_webhook_exporter.Security.Names.{CanonicalRepositoryName}
use github_webhook_exporter.Storage.Sql.{Session}
use github_webhook_exporter.Storage.Tables.{Database}
use github_webhook_exporter.Storage.MergeQueue.{
  EnqueueTransition, created, already_active, CompletionTransition, completed, already_completed,
  MergeQueueStoreError, enqueue, complete,
}
use github_webhook_exporter.Metrics.EventType.{EventType}
use github_webhook_exporter.Metrics.Action.{Action}
use github_webhook_exporter.Metrics.MergeQueue.{
  MergeQueueCompletion, completed_by_merge, completed_by_dequeue, QueueTransitionFailureReason,
  Sample, record_merge_queue_completion, record_merge_queue_transition_failure,
}

-- The fields of the payload that the queue reads.
pub record PullRequestProjection : Type 0 where
  pub number : ℤ
  pub updated_at : Option Text
  pub merged : Option Bool

-- The borrowed dependencies of a processor that never change.
pub record QueueProcessor : Type 0 where
  pub repository_id : ℕ
  pub repository_name : CanonicalRepositoryName
  pub event_type : EventType
  pub action : Action
  pub received_at : ℕ

-- Those that it changes: the store and the metrics.
pub record Services : Type 0 where
  pub store : Session Database
  pub samples : List Sample

pub data PullRequestTransition : Type 0 where
  to_enqueue : PullRequestTransition
  to_complete : MergeQueueCompletion → PullRequestTransition

pub data OperationOutcome : Type 0 where
  success no_op : OperationOutcome

abbrev closed_by : Option Bool → Option PullRequestTransition
closed_by (some true) = some (to_complete completed_by_merge)
closed_by (some false) = none
closed_by none = none

unfoldable pub transition : Action → PullRequestProjection → Option PullRequestTransition
transition Action.enqueued projection = some to_enqueue
transition Action.dequeued projection = some (to_complete completed_by_dequeue)
transition Action.closed projection = closed_by projection.merged
transition _ projection = none

unfoldable pub queue_completion : MergeQueueCompletion → QueueTimestamp → QueueCompletion
unfolding merged_completion dequeued_completion
queue_completion completed_by_merge t = merged_completion t
queue_completion completed_by_dequeue t = dequeued_completion t

unfoldable pub is_pull_request : EventType → Bool
is_pull_request EventType.pull_request = true
is_pull_request _ = false

abbrev or_else : {A : Type 0} → Option A → Option A → Option A
or_else none o = o
or_else (some a) o = some a

abbrev and_then : {A B : Type 0} → Option A → (A → Option B) → Option B
and_then none f = none
and_then (some a) f = f a

module _ (f : TimeFormat) (p : QueueProcessor) where
  unfoldable pub event_timestamp : PullRequestProjection → Option QueueTimestamp
  unfolding parse_timestamp from_datetime
  event_timestamp projection =
      or_else (and_then projection.updated_at (parse_timestamp f)) (from_datetime f p.received_at)

  abbrev enqueue_outcome : EnqueueTransition → OperationOutcome
  enqueue_outcome created = success
  enqueue_outcome already_active = no_op

  abbrev enqueued_result :
      Result MergeQueueStoreError EnqueueTransition → Result MergeQueueStoreError OperationOutcome
  enqueued_result (ok t) = ok (enqueue_outcome t)
  enqueued_result (err e) = err e

  abbrev completed_result :
      QueueCompletion
      → MergeQueueCompletion
      → List Sample
      → Result MergeQueueStoreError CompletionTransition
      → Result MergeQueueStoreError OperationOutcome × List Sample
  completed_result c m samples (ok (completed enqueued_at)) = (
    ok success,
    record_merge_queue_completion p.repository_name m (duration_since c.completed_at enqueued_at)
        samples,
  )
  completed_result c m samples (ok already_completed) = (ok no_op, samples)
  completed_result c m samples (ok CompletionTransition.missing_active_attempt) = (
    ok no_op,
    record_merge_queue_transition_failure p.repository_name
        QueueTransitionFailureReason.missing_active_attempt samples,
  )
  completed_result c m samples (err e) = (err e, samples)

  unfoldable pub complete_attempt :
      PullRequestNumber
      → QueueCompletion
      → MergeQueueCompletion
      → Services
      → Result MergeQueueStoreError OperationOutcome × Services
  unfolding complete duration_since record_merge_queue_completion
      record_merge_queue_transition_failure
  complete_attempt number c m s =
      let (found, store) = complete f p.repository_id number c s.store in
      let (outcome, samples) = completed_result c m s.samples found in
      (outcome, record { store = store; samples = samples })

  unfoldable pub apply_transition :
      PullRequestTransition
      → PullRequestNumber
      → QueueTimestamp
      → Services
      → Result MergeQueueStoreError OperationOutcome × Services
  unfolding enqueue complete_attempt queue_completion
  apply_transition to_enqueue number t s =
      let (found, store) = enqueue p.repository_id number t s.store in
      (enqueued_result found, record s { store = store })
  apply_transition (to_complete m) number t s = complete_attempt number (queue_completion m t) m s

  abbrev finished :
      Result MergeQueueStoreError OperationOutcome × Services
      → Option MergeQueueStoreError × Services
  finished (ok outcome, s) = (none, s)
  finished (err e, s) = (some e, s)

  abbrev apply_some :
      Option PullRequestNumber
      → Option PullRequestTransition
      → Option QueueTimestamp
      → Services
      → Option MergeQueueStoreError × Services
  apply_some (some number) (some change) (some t) s = finished (apply_transition change number t s)
  apply_some (some number) (some change) none s = (none, s)
  apply_some (some number) none t s = (none, s)
  apply_some none change t s = (none, s)

  -- The error that it returns, if any. Where no timestamp can be shown, which a receipt time of
  -- the system clock never does, a debug build would stop at an assertion.
  unfoldable pub process : PullRequestProjection → Services → Option MergeQueueStoreError × Services
  unfolding new transition event_timestamp apply_transition is_pull_request
  process projection s = elim (is_pull_request p.event_type) [
    | false ↦ (none, s)
    | true ↦
        apply_some (new projection.number) (transition p.action projection)
          (event_timestamp projection) s
  ]
