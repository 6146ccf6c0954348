-- ===== src/Api/PullRequest/Attempts.antt =====
-- What the events of one pull request do to its attempts and to the metrics.
use github_webhook_exporter.Prelude.{
  ◌<◌, ◌≡◌, ◌≢◌, refl, ◌∙◌, true, none, some, List, [], Text, pos, negsuc, ok, arith,
}
use github_webhook_exporter.Domain.Time.{TimeFormat}
use github_webhook_exporter.Domain.MergeQueue.{
  PullRequestNumber, new, QueueTimestamp, QueueOutcome, QueueCompletion, parse_timestamp,
  duration_since, merged_completion, dequeued_completion,
}
use github_webhook_exporter.Storage.Sql.{Session}
use github_webhook_exporter.Storage.MergeQueue.Atomic.{enqueue_faults, complete_faults}
use github_webhook_exporter.Storage.Tables.{Database, repository_exists}
use github_webhook_exporter.Storage.MergeQueue.{
  enqueue, complete, completed, already_completed, created,
}
use github_webhook_exporter.Storage.MergeQueue.Machine.{
  AttemptState, view, spec_enqueue, spec_complete,
}
use github_webhook_exporter.Storage.MergeQueue.Refinement.{enqueue_refines, complete_refines}
use github_webhook_exporter.Storage.MergeQueue.Invariant.{
  IsWellFormed, enqueue-IsWellFormed, complete-IsWellFormed,
}
use github_webhook_exporter.Metrics.MergeQueue.{
  MergeQueueCompletion, Sample, completed_by_merge, completed_by_dequeue,
  record_merge_queue_completion,
}
use github_webhook_exporter.Metrics.MergeQueue.Completions.{
  Gained, record_merge_queue_completion-Gained,
}
use github_webhook_exporter.Api.PullRequest.{
  PullRequestProjection, QueueProcessor, Services, PullRequestTransition, to_enqueue, to_complete,
  transition, queue_completion, is_pull_request, event_timestamp, complete_attempt,
  apply_transition, process, finished,
}

-- A processor takes a payload for a change of the attempts of a pull request at a time.
pub record Causes (f : TimeFormat) (p : QueueProcessor) (projection : PullRequestProjection)
    (n : PullRequestNumber) (change : PullRequestTransition) (t : QueueTimestamp) : Type 0 where
  pub event : is_pull_request p.event_type ≡ true
  pub numbered : new projection.number ≡ some n
  pub changes : transition p.action projection ≡ some change
  pub timed : event_timestamp f p projection ≡ some t

-- The services are connected and their attempts well formed.
pub record IsReady (s : Services) : Type 0 where
  pub served : s.store.faults ≡ []
  pub well_formed : IsWellFormed s.store.committed

new_positive :
    (projection : PullRequestProjection) (n : PullRequestNumber)
    → new projection.number ≡ some n
    → 0 < n.number
unfolding new
new_positive projection n h =
    elim projection.number as (λ z. new z ≡ some n → 0 < n.number) [
      | pos k ↦ λ e. ground arith
      | negsuc k ↦ λ e. cc
    ]
      h

terminal :
    (m : MergeQueueCompletion) (t : QueueTimestamp)
    → (queue_completion m t).outcome ≢ QueueOutcome.pending
unfolding queue_completion merged_completion dequeued_completion
terminal completed_by_merge t e = cc
terminal completed_by_dequeue t e = cc

completed_at_time :
    (m : MergeQueueCompletion) (t : QueueTimestamp) → (queue_completion m t).completed_at ≡ t
unfolding queue_completion merged_completion dequeued_completion
completed_at_time completed_by_merge t = refl
completed_at_time completed_by_dequeue t = refl

process-Causes :
    (f : TimeFormat) (p : QueueProcessor) (projection : PullRequestProjection)
    (n : PullRequestNumber) (change : PullRequestTransition) (t : QueueTimestamp) (s : Services)
    → Causes f p projection n change t
    → process f p projection s ≡ finished f p (apply_transition f p change n t s)
unfolding process
process-Causes f p projection n change t s h =
    rw (process, h.event, h.numbered, h.changes, h.timed) refl

module _ (f : TimeFormat) (p : QueueProcessor) (projection : PullRequestProjection)
    (n : PullRequestNumber) (t : QueueTimestamp) (s : Services) (ready : IsReady s) where
  abbrev state : Session Database → AttemptState
  state store = view store.committed p.repository_id n.number

  abbrev after_enqueue : Services
  after_enqueue = record s { store = (enqueue p.repository_id n t s.store).1 }

  enqueue-IsReady : IsReady after_enqueue
  enqueue-IsReady = record {
    served = enqueue_faults p.repository_id n t s.store ready.served;
    well_formed = enqueue-IsWellFormed s.store ready.well_formed p.repository_id n t;
  }

  enqueue_runs :
      Causes f p projection n to_enqueue t
      → repository_exists p.repository_id s.store.committed.repositories ≡ true
      → (state s.store).active ≡ none
      → (process f p projection s ≡ (none, after_enqueue))
        × ((state after_enqueue.store).active ≡ some t.canonical)
  unfolding apply_transition spec_enqueue
  enqueue_runs causes stored fresh =
      let step =
        enqueue_refines s.store ready.served p.repository_id n t
          (new_positive projection n causes.numbered) stored in
      let answer : (enqueue p.repository_id n t s.store).0 ≡ ok created =
        ground (arith, step.0, fresh) in
      (
        process-Causes f p projection n to_enqueue t s causes ∙ rw answer refl,
        ground (arith, step.1 p.repository_id n.number, fresh),
      )

  abbrev completion : MergeQueueCompletion → QueueCompletion
  completion m = queue_completion m t

  abbrev after_complete : MergeQueueCompletion → List Sample → Services
  after_complete m samples = record {
    store = (complete f p.repository_id n (completion m) s.store).1;
    samples = samples;
  }

  complete-IsReady :
      (m : MergeQueueCompletion) (samples : List Sample) → IsReady (after_complete m samples)
  complete-IsReady m samples = record {
    served = complete_faults f p.repository_id n (completion m) s.store ready.served;
    well_formed =
        complete-IsWellFormed s.store ready.well_formed f p.repository_id n (completion m);
  }

  complete_runs :
      (m : MergeQueueCompletion) (stored : Text) (enqueued_at : QueueTimestamp)
      → Causes f p projection n (to_complete m) t
      → (state s.store).active ≡ some stored
      → parse_timestamp f stored ≡ some enqueued_at
      → (process f p projection s ≡ (
        none,
        after_complete m (
            record_merge_queue_completion p.repository_name m
              (duration_since t enqueued_at)
              s.samples),
      ))
        × (state (after_complete m s.samples).store ≡ record { active = none; ended = true })
  unfolding apply_transition complete_attempt spec_complete
  complete_runs m stored enqueued_at causes active parsed =
      let step =
        complete_refines s.store ready.served f p.repository_id n (completion m) (terminal m t)
          ready.well_formed.checked in
      let answer : (complete f p.repository_id n (completion m) s.store).0
          ≡ ok (completed enqueued_at) =
        ground (arith, step.0, active, parsed) in
      (
        process-Causes f p projection n (to_complete m) t s causes
            ∙ rw (answer, completed_at_time m t) refl,
        ground (arith, step.1 p.repository_id n.number, active, parsed),
      )

  repeat_runs :
      (m : MergeQueueCompletion)
      → Causes f p projection n (to_complete m) t
      → state s.store ≡ record { active = none; ended = true }
      → process f p projection s ≡ (none, after_complete m s.samples)
  unfolding apply_transition complete_attempt spec_complete
  repeat_runs m causes ended =
      let step =
        complete_refines s.store ready.served f p.repository_id n (completion m) (terminal m t)
          ready.well_formed.checked in
      let answer : (complete f p.repository_id n (completion m) s.store).0 ≡ ok already_completed =
        ground (arith, step.0, ended) in
      process-Causes f p projection n (to_complete m) t s causes ∙ rw answer refl

-- Once an event has completed an attempt, the same event changes no metric when it is processed
-- again, and fails neither time. The stored time of the attempt is readable, SQLite serves every
-- call, and the attempts are well formed at the start.
pub completion_counts_once :
    (f : TimeFormat) (p : QueueProcessor) (projection : PullRequestProjection)
    (n : PullRequestNumber) (t : QueueTimestamp) (s : Services)
    → IsReady s
    → (m : MergeQueueCompletion) (stored : Text) (enqueued_at : QueueTimestamp)
    → Causes f p projection n (to_complete m) t
    → (view s.store.committed p.repository_id n.number).active ≡ some stored
    → parse_timestamp f stored ≡ some enqueued_at
    → ((process f p projection s).0 ≡ none)
      × ((process f p projection (process f p projection s).1).0 ≡ none)
      × ((process f p projection (process f p projection s).1).1.samples
          ≡ (process f p projection s).1.samples)
completion_counts_once f p projection n t s ready m stored enqueued_at causes active parsed =
    let run = complete_runs f p projection n t s ready m stored enqueued_at causes active parsed in
    let again =
      repeat_runs f p projection n t _
        (complete-IsReady f p projection n t s ready m (
          record_merge_queue_completion p.repository_name m (duration_since t enqueued_at)
            s.samples))
        m causes run.1 in
    rw (run.0, again) (refl, refl, refl)

-- For a pull request without an active attempt in a stored repository, an enqueuing event at `t`
-- and then a completing one at `u` fail neither. Where `u` is at most 365 days after the time of the
-- first event, as it is read back, the metrics gain the outcome of the completion, with its
-- reason, and the duration between the two times; where it is later, or before that time, they gain
-- one failed transition, for an invalid duration, and no completion. SQLite serves every call, and
-- the attempts are well formed at the start.
pub attempt_measured :
    (f : TimeFormat) (p q : QueueProcessor) (queued closed : PullRequestProjection)
    (n : PullRequestNumber) (t u enqueued_at : QueueTimestamp) (m : MergeQueueCompletion)
    (s : Services)
    → IsReady s
    → q.repository_id ≡ p.repository_id
    → Causes f p queued n to_enqueue t
    → Causes f q closed n (to_complete m) u
    → repository_exists p.repository_id s.store.committed.repositories ≡ true
    → (view s.store.committed p.repository_id n.number).active ≡ none
    → parse_timestamp f t.canonical ≡ some enqueued_at
    → ((process f p queued s).0 ≡ none)
      × ((process f q closed (process f p queued s).1).0 ≡ none)
      × Gained q.repository_name.name m enqueued_at.instant u.instant s.samples
          (process f q closed (process f p queued s).1).1.samples
unfolding duration_since
attempt_measured f p q queued closed n t u enqueued_at m s ready same first second stored fresh
      parsed =
    let start = enqueue_runs f p queued n t s ready first stored fresh in
    let middle = enqueue-IsReady f p queued n t s ready in
    let end =
      complete_runs f q closed n u (after_enqueue f p queued n t s ready) middle m t.canonical
        enqueued_at second (rw same start.1) parsed in
    rw (start.0, end.0)
      (
        refl,
        refl,
        record_merge_queue_completion-Gained q.repository_name m enqueued_at.instant u.instant
            s.samples,
      )
