-- ===== src/Domain/MergeQueue/Vocabulary.antt =====
-- The persistence vocabularies of src/domain/merge_queue.rs, written and read.
use github_webhook_exporter.Prelude.{◌≡◌, refl, ◌↔◌, some, Text, lookup_text, lookup_text-spelled}
use github_webhook_exporter.Domain.MergeQueue.{
  QueueOutcome, pending, succeeded, failed, cancelled, unknown, outcome_as_str, parse_outcome,
  QueueReasonCode, no_reason, pull_request_merged, unclassified_dequeue, reason_as_str,
  parse_reason,
}

parse-outcome_as_str : (o : QueueOutcome) → parse_outcome (outcome_as_str o) ≡ some o
unfolding parse_outcome outcome_as_str lookup_text
parse-outcome_as_str pending = refl
parse-outcome_as_str succeeded = refl
parse-outcome_as_str failed = refl
parse-outcome_as_str cancelled = refl
parse-outcome_as_str unknown = refl

-- A text is accepted as an outcome exactly when it is the text that the outcome is stored as.
pub parse_outcome_iff :
    (s : Text) (o : QueueOutcome) → (parse_outcome s ≡ some o) ↔ (s ≡ outcome_as_str o)
parse_outcome_iff s o = (
  unfold parse_outcome outcome_as_str in lookup_text-spelled outcome_as_str _ s o refl,
  λ e. rw e (parse-outcome_as_str o),
)

parse-reason_as_str : (r : QueueReasonCode) → parse_reason (reason_as_str r) ≡ some r
unfolding parse_reason reason_as_str lookup_text
parse-reason_as_str no_reason = refl
parse-reason_as_str pull_request_merged = refl
parse-reason_as_str unclassified_dequeue = refl

-- A text is accepted as a reason exactly when it is the text that the reason is stored as.
pub parse_reason_iff :
    (s : Text) (r : QueueReasonCode) → (parse_reason s ≡ some r) ↔ (s ≡ reason_as_str r)
parse_reason_iff s r = (
  unfold parse_reason reason_as_str in lookup_text-spelled reason_as_str _ s r refl,
  λ e. rw e (parse-reason_as_str r),
)
