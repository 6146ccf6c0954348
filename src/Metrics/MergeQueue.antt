-- ===== src/Metrics/MergeQueue.antt =====
-- src/metrics.rs: the vocabulary of merge groups and merge queues, and the samples that are
-- recorded with it. A counter is the number of its samples, a histogram is their values.
pub mod Completions
use github_webhook_exporter.Prelude.{
  ℕ, ◌*◌, List, [], ◌∷◌, ◌++◌, Text, lit, match_text, ℤ, pos, negsuc, leb, if◌then◌else◌,
}
use github_webhook_exporter.Security.Names.{CanonicalRepositoryName}

pub data MergeGroupAction : Type 0 where
  checks_requested destroyed : MergeGroupAction

-- `without_reason` is `None`.
pub data MergeGroupReason : Type 0 where
  without_reason merged dequeued invalidated other : MergeGroupReason

unfoldable pub reason_label : MergeGroupReason → Text
reason_label without_reason = lit "none"
reason_label merged = lit "merged"
reason_label dequeued = lit "dequeued"
reason_label invalidated = lit "invalidated"
reason_label other = lit "other"

unfoldable pub normalize_merge_group_destroyed_reason : Text → MergeGroupReason
normalize_merge_group_destroyed_reason =
    match_text
      ((lit "merged", merged) ∷ (lit "dequeued", dequeued) ∷ (lit "invalidated", invalidated) ∷ [])
      other

pub data MergeQueueOutcome : Type 0 where
  succeeded failed cancelled unknown : MergeQueueOutcome

pub data MergeQueueReason : Type 0 where
  pull_request_merged unclassified_dequeue : MergeQueueReason

pub data MergeQueueCompletion : Type 0 where
  completed_by_merge completed_by_dequeue : MergeQueueCompletion

pub record MergeQueueOutcomeLabels : Type 0 where
  pub repository : Text
  pub outcome : MergeQueueOutcome
  pub reason : MergeQueueReason

unfoldable pub labels : MergeQueueCompletion → Text → MergeQueueOutcomeLabels
labels completed_by_merge repository = record {
  repository = repository;
  outcome = succeeded;
  reason = pull_request_merged;
}
labels completed_by_dequeue repository = record {
  repository = repository;
  outcome = unknown;
  reason = unclassified_dequeue;
}

pub data QueueTransitionFailureReason : Type 0 where
  missing_active_attempt invalid_duration : QueueTransitionFailureReason

pub data Sample : Type 0 where
  merge_group_event : Text → MergeGroupAction → MergeGroupReason → Sample
  attempt_outcome : MergeQueueOutcomeLabels → Sample
  attempt_duration : (repository : Text) → MergeQueueOutcome → (duration : ℕ) → Sample
  transition_failure : (repository : Text) → QueueTransitionFailureReason → Sample

-- 365 days, in nanoseconds.
abbrev pub max_merge_queue_attempt_duration : ℕ
max_merge_queue_attempt_duration = 365 * 86400 * 1000000000

unfoldable pub record_merge_group_event :
    CanonicalRepositoryName → MergeGroupAction → MergeGroupReason → List Sample → List Sample
record_merge_group_event repository checks_requested reason samples =
    samples ++ merge_group_event repository.name checks_requested without_reason ∷ []
record_merge_group_event repository destroyed reason samples =
    samples ++ merge_group_event repository.name destroyed reason ∷ []

unfoldable pub record_merge_queue_transition_failure :
    CanonicalRepositoryName → QueueTransitionFailureReason → List Sample → List Sample
record_merge_queue_transition_failure repository reason samples =
    samples ++ transition_failure repository.name reason ∷ []

abbrev completion_samples : MergeQueueOutcomeLabels → ℕ → List Sample
completion_samples l duration =
    attempt_outcome l ∷ attempt_duration l.repository l.outcome duration ∷ []

unfoldable pub record_merge_queue_completion :
    CanonicalRepositoryName → MergeQueueCompletion → ℤ → List Sample → List Sample
unfolding labels record_merge_queue_transition_failure
record_merge_queue_completion repository completion (negsuc n) samples =
    record_merge_queue_transition_failure repository invalid_duration samples
record_merge_queue_completion repository completion (pos n) samples =
    if leb n max_merge_queue_attempt_duration
    then samples ++ completion_samples (labels completion repository.name) n
    else record_merge_queue_transition_failure repository invalid_duration samples
