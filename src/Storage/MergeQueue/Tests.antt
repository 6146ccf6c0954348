-- ===== src/Storage/MergeQueue/Tests.antt =====
-- The theorems on the attempts, at a table with an active and an ended attempt.
use github_webhook_exporter.Prelude.{
  ℕ, ◌≡◌, ◌≢◌, refl, ◌==◌, ◌&&◌, true, if◌then◌else◌, ok, err, all, arith,
}
use github_webhook_exporter.Fixtures.{clock, at, number, merged_at, connected, busy_third, tables}
use github_webhook_exporter.Domain.MergeQueue.{
  outcome_as_str, pending, merged_completion, parse_timestamp,
}
use github_webhook_exporter.Storage.Sql.{sqlite_is_busy_or_locked}
use github_webhook_exporter.Storage.Tables.{check_attempt, repository_exists}
use github_webhook_exporter.Storage.MergeQueue.{
  enqueue, complete, is_active_of, is_attempt_of, unavailable,
}
use github_webhook_exporter.Storage.MergeQueue.Machine.{view, spec_enqueue, spec_complete}
use github_webhook_exporter.Storage.MergeQueue.Invariant.{
  IsWellFormed, enqueue-IsWellFormed, complete-IsWellFormed,
}
use github_webhook_exporter.Storage.MergeQueue.Refinement.{enqueue_refines, complete_refines}
use github_webhook_exporter.Storage.MergeQueue.Atomic.{complete_fails_clean}

tables_checked : all check_attempt tables.merge_queue_attempts ≡ true
unfolding check_attempt
tables_checked = refl

tables-IsWellFormed : IsWellFormed tables
unfolding is_active_of is_attempt_of repository_exists
tables-IsWellFormed = record {
  one_active = λ repository n. ground arith;
  checked = tables_checked;
  primary_key = ground arith;
  referenced = refl;
}

octo_exists : repository_exists 1 tables.repositories ≡ true
unfolding repository_exists
octo_exists = refl

terminal : (merged_at 30).outcome ≢ pending
unfolding merged_completion
terminal e = cc

enqueue-IsWellFormed_example : IsWellFormed (enqueue 1 (number 9) (at 12) connected).1.committed
enqueue-IsWellFormed_example =
    enqueue-IsWellFormed connected tables-IsWellFormed 1 (number 9) (at 12)

complete-IsWellFormed_example :
    IsWellFormed (complete clock 1 (number 7) (merged_at 30) connected).1.committed
complete-IsWellFormed_example =
    complete-IsWellFormed connected tables-IsWellFormed clock 1 (number 7) (merged_at 30)

enqueue_refines_example :
    ((enqueue 1 (number 7) (at 12) connected).0
      ≡ ok (spec_enqueue ((at 12).canonical) (view tables 1 7)).0)
    × ((k n : ℕ)
        → view (enqueue 1 (number 7) (at 12) connected).1.committed k n ≡ (
            if 1 == k && 7 == n
            then (spec_enqueue ((at 12).canonical) (view tables k n)).1
            else view tables k n))
enqueue_refines_example =
    enqueue_refines connected refl 1 (number 7) (at 12) (omega arith) octo_exists

complete_refines_example :
    ((complete clock 1 (number 7) (merged_at 30) connected).0
      ≡ (spec_complete clock (view tables 1 7)).0)
    × ((k n : ℕ)
        → view (complete clock 1 (number 7) (merged_at 30) connected).1.committed k n ≡ (
            if 1 == k && 7 == n
            then (spec_complete clock (view tables k n)).1
            else view tables k n))
complete_refines_example =
    complete_refines connected refl clock 1 (number 7) (merged_at 30) terminal tables_checked

complete_busy : (complete clock 1 (number 7) (merged_at 30) busy_third).0 ≡ err unavailable
unfolding complete check_attempt is_active_of merged_completion parse_timestamp outcome_as_str
    sqlite_is_busy_or_locked
complete_busy = refl

complete_fails_clean_example :
    (complete clock 1 (number 7) (merged_at 30) busy_third).1.committed ≡ tables
complete_fails_clean_example =
    complete_fails_clean clock 1 (number 7) (merged_at 30) busy_third unavailable complete_busy
