-- ===== src/Domain/MergeQueue.antt =====
-- src/domain/merge_queue.rs: pull-request numbers, event timestamps, outcomes, reasons and
-- terminal transitions of merge-queue attempts.
pub mod Vocabulary
use github_webhook_exporter.Prelude.{
  ℕ, ◌≡◌, Option, none, some, List, [], ◌∷◌, Text, lit, lookup_text, ℤ, pos, negsuc, sub_ℕ, ltb,
  if◌then◌else◌,
}
use github_webhook_exporter.Domain.Time.{TimeFormat}

-- The `i64` behind it is positive, so it is a natural number.
pub record PullRequestNumber : Type 0 where
  pub number : ℕ

-- `none` is `PullRequestNumberError`.
unfoldable pub new : ℤ → Option PullRequestNumber
new (pos n) = if ltb 0 n then some (record { number = n }) else none
new (negsuc n) = none

pub record QueueTimestamp : Type 0 where
  pub canonical : Text
  pub instant : ℕ

abbrev with_canonical : ℕ → Option Text → Option QueueTimestamp
with_canonical instant none = none
with_canonical instant (some text) = some (record { canonical = text; instant = instant })

-- `none` is `QueueTimestampError`.
unfoldable pub from_datetime : TimeFormat → ℕ → Option QueueTimestamp
from_datetime f timestamp = with_canonical timestamp (f.format_millis timestamp)

abbrev from_parsed : TimeFormat → Option ℕ → Option QueueTimestamp
unfolding from_datetime
from_parsed f none = none
from_parsed f (some timestamp) = from_datetime f timestamp

unfoldable pub parse_timestamp : TimeFormat → Text → Option QueueTimestamp
unfolding from_datetime from_parsed
parse_timestamp f value = from_parsed f (f.parse_rfc3339 value)

-- In nanoseconds.
unfoldable pub duration_since : QueueTimestamp → QueueTimestamp → ℤ
duration_since this earlier = sub_ℕ this.instant earlier.instant

pub data QueueOutcome : Type 0 where
  pending succeeded failed cancelled unknown : QueueOutcome

unfoldable pub outcome_as_str : QueueOutcome → Text
outcome_as_str pending = lit "pending"
outcome_as_str succeeded = lit "succeeded"
outcome_as_str failed = lit "failed"
outcome_as_str cancelled = lit "cancelled"
outcome_as_str unknown = lit "unknown"

-- `none` is `QueueValueError`.
unfoldable pub parse_outcome : Text → Option QueueOutcome
parse_outcome = lookup_text (
    (lit "pending", pending)
    ∷ (lit "succeeded", succeeded)
    ∷ (lit "failed", failed)
    ∷ (lit "cancelled", cancelled)
    ∷ (lit "unknown", unknown)
    ∷ [])

pub data QueueReasonCode : Type 0 where
  no_reason pull_request_merged unclassified_dequeue : QueueReasonCode

unfoldable pub reason_as_str : QueueReasonCode → Text
reason_as_str no_reason = lit "none"
reason_as_str pull_request_merged = lit "pull_request_merged"
reason_as_str unclassified_dequeue = lit "unclassified_dequeue"

-- `none` is `QueueValueError`.
unfoldable pub parse_reason : Text → Option QueueReasonCode
parse_reason = lookup_text (
    (lit "none", no_reason)
    ∷ (lit "pull_request_merged", pull_request_merged)
    ∷ (lit "unclassified_dequeue", unclassified_dequeue)
    ∷ [])

pub record QueueCompletion : Type 0 where
  pub completed_at : QueueTimestamp
  pub outcome : QueueOutcome
  pub reason_code : QueueReasonCode

unfoldable pub merged_completion : QueueTimestamp → QueueCompletion
merged_completion t = record {
  completed_at = t;
  outcome = succeeded;
  reason_code = pull_request_merged;
}

unfoldable pub dequeued_completion : QueueTimestamp → QueueCompletion
dequeued_completion t = record {
  completed_at = t;
  outcome = unknown;
  reason_code = unclassified_dequeue;
}
