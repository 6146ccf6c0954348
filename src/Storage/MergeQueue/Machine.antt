-- ===== src/Storage/MergeQueue/Machine.antt =====
-- What a client observes of the attempts of one pull request, as a state machine, and what the
-- statements of src/storage/merge_queue_store.rs do to it.
use github_webhook_exporter.Prelude.{
  ℕ, ◌<◌, ◌≡◌, ◌≢◌, refl, ◌==◌, ◌&&◌, ◌||◌, Bool, true, false, not, Option, none, some, List, [],
  ◌∷◌, ◌++◌, arith, any, all, keep, map, Text, Result, ok, err, any-append, lt→ltb, text_eq,
  if◌then◌else◌,
}
use github_webhook_exporter.Domain.Time.{TimeFormat}
use github_webhook_exporter.Domain.MergeQueue.{
  PullRequestNumber, QueueTimestamp, QueueCompletion, QueueOutcome, pending, succeeded, failed,
  cancelled, unknown, outcome_as_str, parse_timestamp,
}
use github_webhook_exporter.Storage.Tables.{
  AttemptRow, Database, is_null, check_attempt, repository_exists, next_rowid,
}
use github_webhook_exporter.Storage.MergeQueue.{
  EnqueueTransition, created, already_active, CompletionTransition, completed, already_completed,
  missing_active_attempt, MergeQueueStoreError, internal, is_active_of, is_attempt_of,
  insert_attempt, insert_pending, pending_row, completed_row, update_where, complete_active,
  head_enqueued_at,
}

-- The time at which the active attempt was enqueued, if there is one, and whether some attempt
-- has ended.
pub record AttemptState : Type 0 where
  pub active : Option Text
  pub ended : Bool

abbrev pub ended_of : ℕ → ℕ → AttemptRow → Bool
ended_of repository number r = is_attempt_of repository number r && not (is_null r.completed_at)

unfoldable pub view_rows : ℕ → ℕ → List AttemptRow → AttemptState
view_rows repository number rows = record {
  active = head_enqueued_at (keep (is_active_of repository number) rows);
  ended = any (ended_of repository number) rows;
}

unfoldable pub view : Database → ℕ → ℕ → AttemptState
unfolding view_rows
view d repository number = view_rows repository number d.merge_queue_attempts

-- The machine: an enqueue starts an attempt unless one is active, a completion ends the active one.

unfoldable pub spec_enqueue : Text → AttemptState → EnqueueTransition × AttemptState
spec_enqueue t s = elim s.active [
  | none ↦ (created, record s { active = some t })
  | some u ↦ (already_active, s)
]

abbrev pub spec_end :
    Option QueueTimestamp
    → AttemptState
    → Result MergeQueueStoreError CompletionTransition × AttemptState
spec_end none s = (err internal, s)
spec_end (some q) s = (ok (completed q), record { active = none; ended = true })

-- The stored time is read back; if that fails nothing changes.
unfoldable pub spec_complete :
    TimeFormat → AttemptState → Result MergeQueueStoreError CompletionTransition × AttemptState
spec_complete f s = elim s.active [
  | none ↦ (ok (if s.ended then already_completed else missing_active_attempt), s)
  | some t ↦ spec_end (parse_timestamp f t) s
]

-- The statements.

pub first-none-any :
    (p : AttemptRow → Bool) (rows : List AttemptRow)
    → head_enqueued_at (keep p rows) ≡ none
    → any p rows ≡ false
first-none-any p [] h = refl
first-none-any p (r ∷ rows) h = ground (arith, first-none-any p rows)

pub any-first-none :
    (p : AttemptRow → Bool) (rows : List AttemptRow)
    → any p rows ≡ false
    → head_enqueued_at (keep p rows) ≡ none
any-first-none p [] h = refl
any-first-none p (r ∷ rows) h = ground (arith, any-first-none p rows)

pub first-append :
    (p : AttemptRow → Bool) (rows : List AttemptRow) (r : AttemptRow)
    → head_enqueued_at (keep p (rows ++ r ∷ [])) ≡ (
        if any p rows
        then head_enqueued_at (keep p rows)
        else if p r
        then some r.enqueued_at
        else none)
first-append p [] r = ground arith
first-append p (x ∷ rows) r = ground (arith, first-append p rows r)

pub view-append :
    (k n : ℕ) (repository : ℕ) (number : PullRequestNumber) (t : QueueTimestamp) (id : ℕ)
    (rows : List AttemptRow)
    → any (is_active_of repository number.number) rows ≡ false
    → view_rows k n (rows ++ pending_row id repository number t ∷ []) ≡ (
        if repository == k && number.number == n
        then record (view_rows k n rows) { active = some t.canonical }
        else view_rows k n rows)
unfolding view_rows is_active_of is_attempt_of
view-append k n repository number t id rows h = ground (
  arith,
  first-append (is_active_of k n) rows (pending_row id repository number t),
  any-append (ended_of k n) rows (pending_row id repository number t ∷ []),
  any-first-none (is_active_of k n) rows,
)

pub keep-update :
    (k n repository number : ℕ) (c : QueueCompletion) (rows : List AttemptRow)
    → keep (is_active_of k n) (update_where (is_active_of repository number) (completed_row c) rows)
      ≡ (if repository == k && number == n then [] else keep (is_active_of k n) rows)
unfolding update_where is_active_of is_attempt_of
keep-update k n repository number c [] = ground arith
keep-update k n repository number c (r ∷ rows) =
    ground (arith, keep-update k n repository number c rows)

pub ended-update :
    (k n repository number : ℕ) (c : QueueCompletion) (rows : List AttemptRow)
    → any (ended_of k n) (update_where (is_active_of repository number) (completed_row c) rows) ≡ (
        any (ended_of k n) rows
        || (repository == k && number == n && any (is_active_of repository number) rows))
unfolding update_where is_active_of is_attempt_of
ended-update k n repository number c [] = ground arith
ended-update k n repository number c (r ∷ rows) =
    ground (arith, ended-update k n repository number c rows)

pub completed_rows_check :
    (c : QueueCompletion) (rows : List AttemptRow) (p : AttemptRow → Bool)
    → check_attempt (completed_row c (pending_row 1 1 (record { number = 1 }) c.completed_at))
      ≡ true
    → all check_attempt rows ≡ true
    → all check_attempt (map (completed_row c) (keep p rows)) ≡ true
unfolding check_attempt
completed_rows_check c [] p h a = refl
completed_rows_check c (r ∷ rows) p h a = ground (arith, completed_rows_check c rows p h)

pub pending-check :
    (id repository : ℕ) (number : PullRequestNumber) (t : QueueTimestamp)
    → 0 < number.number
    → check_attempt (pending_row id repository number t) ≡ true
unfolding check_attempt outcome_as_str text_eq
pending-check id repository number t h = rw (lt→ltb 0 number.number h)

pub insert_pending-served :
    (repository : ℕ) (number : PullRequestNumber) (t : QueueTimestamp) (d : Database)
    → 0 < number.number
    → repository_exists repository d.repositories ≡ true
    → insert_pending repository number t d ≡ (
        if any (is_active_of repository number.number) d.merge_queue_attempts
        then ok (0, d)
        else ok (
          1,
          record d {
            merge_queue_attempts =
                d.merge_queue_attempts
                ++ pending_row (next_rowid d.merge_queue_attempts) repository number t ∷ [];
          },
        ))
unfolding insert_pending insert_attempt
insert_pending-served repository number t d p e =
    ground (arith, pending-check (next_rowid d.merge_queue_attempts) repository number t p)

pub completion-check :
    (c : QueueCompletion) (o : QueueOutcome)
    → c.outcome ≡ o
    → o ≢ pending
    → check_attempt (completed_row c (pending_row 1 1 (record { number = 1 }) c.completed_at))
      ≡ true
unfolding check_attempt outcome_as_str text_eq
completion-check c pending e h = absurd (h refl)
completion-check c succeeded e h = rw e
completion-check c failed e h = rw e
completion-check c cancelled e h = rw e
completion-check c unknown e h = rw e

pub complete_active-served :
    (repository : ℕ) (number : PullRequestNumber) (c : QueueCompletion) (d : Database)
    → c.outcome ≢ pending
    → all check_attempt d.merge_queue_attempts ≡ true
    → complete_active repository number c d
      ≡ ok (
        head_enqueued_at (keep (is_active_of repository number.number) d.merge_queue_attempts),
        record d {
          merge_queue_attempts =
              update_where
                (is_active_of repository number.number)
                (completed_row c)
                d.merge_queue_attempts;
        },
      )
unfolding complete_active
complete_active-served repository number c d h a = rw (
    completed_rows_check c d.merge_queue_attempts (is_active_of repository number.number)
      (completion-check c c.outcome refl h) a)

pub view-update :
    (k n repository : ℕ) (number : PullRequestNumber) (c : QueueCompletion) (d : Database)
    (t : Text)
    → head_enqueued_at (keep (is_active_of repository number.number) d.merge_queue_attempts)
      ≡ some t
    → view
        (record d {
          merge_queue_attempts =
              update_where
                (is_active_of repository number.number)
                (completed_row c)
                d.merge_queue_attempts;
        })
        k
        n
      ≡ (if repository == k && number.number == n
          then record { active = none; ended = true }
          else view d k n)
unfolding view
view-update k n repository number c d t h = ground (
  arith,
  keep-update k n repository number.number c d.merge_queue_attempts,
  ended-update k n repository number.number c d.merge_queue_attempts,
  any-first-none (is_active_of repository number.number) d.merge_queue_attempts,
)

pub update-none :
    (p : AttemptRow → Bool) (g : AttemptRow → AttemptRow) (rows : List AttemptRow)
    → head_enqueued_at (keep p rows) ≡ none
    → update_where p g rows ≡ rows
unfolding update_where
update-none p g [] h = refl
update-none p g (r ∷ rows) h = ground (arith, update-none p g rows)
