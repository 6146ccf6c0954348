-- ===== src/Metrics/MergeQueue/Completions.antt =====
-- The samples of a completed queue attempt in src/metrics.rs.
use github_webhook_exporter.Prelude.{
  ℕ, ◌+◌, ◌-◌, ◌*◌, ◌≤◌, ◌<◌, ◌≡◌, ◌⊎◌, refl, inl, inr, Bool-cases, List, [], ◌∷◌, ◌++◌, Text, leb,
  sub_ℕ, arith,
}
use github_webhook_exporter.Security.Names.{CanonicalRepositoryName}
use github_webhook_exporter.Metrics.MergeQueue.{
  MergeQueueOutcome, succeeded, unknown, MergeQueueReason, pull_request_merged,
  unclassified_dequeue, MergeQueueCompletion, completed_by_merge, completed_by_dequeue, labels,
  Sample, attempt_outcome, attempt_duration, transition_failure, invalid_duration,
  record_merge_queue_transition_failure, record_merge_queue_completion,
}

abbrev pub outcome_of : MergeQueueCompletion → MergeQueueOutcome
outcome_of completed_by_merge = succeeded
outcome_of completed_by_dequeue = unknown

abbrev pub reason_of : MergeQueueCompletion → MergeQueueReason
reason_of completed_by_merge = pull_request_merged
reason_of completed_by_dequeue = unclassified_dequeue

-- 365 days in nanoseconds.
abbrev pub year : ℕ
year = 31536000000000000

-- What the metrics gain by an attempt that began at one instant and ended at another: where that
-- is at most 365 days later, its outcome and its duration; otherwise, an invalid duration.
abbrev pub Gained : Text → MergeQueueCompletion → ℕ → ℕ → List Sample → List Sample → Type 0
Gained repository m began ended before after =
    ((began ≤ ended)
      × (ended ≤ began + year)
      × (after
          ≡ before
            ++ attempt_outcome
                (record { repository = repository; outcome = outcome_of m; reason = reason_of m })
              ∷ attempt_duration repository (outcome_of m) (ended - began)
              ∷ []))
    ⊎ (((ended < began) ⊎ (began + year < ended))
        × (after ≡ before ++ transition_failure repository invalid_duration ∷ []))

labels_lem :
    (m : MergeQueueCompletion) (repository : Text)
    → labels m repository
      ≡ record { repository = repository; outcome = outcome_of m; reason = reason_of m }
unfolding labels
labels_lem completed_by_merge repository = refl
labels_lem completed_by_dequeue repository = refl

pub record_merge_queue_completion-Gained :
    (repository : CanonicalRepositoryName) (m : MergeQueueCompletion) (began ended : ℕ)
    (samples : List Sample)
    → Gained repository.name m began ended samples
        (record_merge_queue_completion repository m (sub_ℕ ended began) samples)
unfolding record_merge_queue_completion record_merge_queue_transition_failure
record_merge_queue_completion-Gained repository m began ended samples =
    elim (Bool-cases (leb began ended)) [
      | inr early ↦
          let before : ended < began = ground (arith, early) in rw early (inr (inl before, refl))
      | inl late ↦
          let after : began ≤ ended = ground (arith, late) in
          elim (Bool-cases (leb (ended - began) (365 * 86400 * 1000000000))) [
            | inl sane ↦
                let within : ended ≤ began + year = ground (arith, sane) in
                rw (late, sane, labels_lem m repository.name) (inl (after, within, refl))
            | inr long ↦
                let beyond : began + year < ended = ground (arith, long) in
                rw (late, long) (inr (inr beyond, refl))
          ]
    ]
