-- ===== src/Storage/MergeQueue/Refinement.antt =====
-- The transactions of src/storage/merge_queue_store.rs against the machine of one pull request.
use github_webhook_exporter.Prelude.{
  ℕ, ◌<◌, ◌≡◌, ◌≢◌, Bool-cases, Option-cases, inl, inr, ◌==◌, ◌&&◌, true, false, none, some, List,
  [], ◌∷◌, ◌++◌, arith, any, all, keep, Text, ok, err, if◌then◌else◌,
}
use github_webhook_exporter.Domain.Time.{TimeFormat}
use github_webhook_exporter.Domain.MergeQueue.{
  PullRequestNumber, QueueTimestamp, QueueCompletion, pending, parse_timestamp,
}
use github_webhook_exporter.Storage.Sql.{Session, begin, commit, in_transaction}
use github_webhook_exporter.Storage.Tables.{
  AttemptRow, Database, check_attempt, repository_exists, next_rowid,
}
use github_webhook_exporter.Storage.MergeQueue.{
  created, already_active, completed, already_completed, missing_active_attempt, internal, enqueue,
  complete, classify, is_active_of, pending_row, completed_row, update_where, complete_active,
  completed_exists, head_enqueued_at,
}
use github_webhook_exporter.Storage.MergeQueue.Machine.{
  ended_of, view, spec_enqueue, spec_complete, first-none-any, any-first-none, view-append,
  insert_pending-served, complete_active-served, view-update, update-none,
}

module _ (s : Session Database) (served : s.faults ≡ []) where
  enqueue-none :
      (repository : ℕ) (number : PullRequestNumber) (t : QueueTimestamp)
      → 0 < number.number
      → repository_exists repository s.committed.repositories ≡ true
      → any (is_active_of repository number.number) s.committed.merge_queue_attempts ≡ false
      → ((enqueue repository number t s).0 ≡ ok created)
        × ((enqueue repository number t s).1.committed.merge_queue_attempts
            ≡ s.committed.merge_queue_attempts
              ++ pending_row (next_rowid s.committed.merge_queue_attempts) repository number t ∷ [])
  unfolding enqueue begin commit in_transaction
  enqueue-none repository number t p e a =
      ground (arith, insert_pending-served repository number t s.committed p e)

  enqueue-some :
      (repository : ℕ) (number : PullRequestNumber) (t : QueueTimestamp)
      → 0 < number.number
      → repository_exists repository s.committed.repositories ≡ true
      → any (is_active_of repository number.number) s.committed.merge_queue_attempts ≡ true
      → ((enqueue repository number t s).0 ≡ ok already_active)
        × ((enqueue repository number t s).1.committed.merge_queue_attempts
            ≡ s.committed.merge_queue_attempts)
  unfolding enqueue begin commit in_transaction
  enqueue-some repository number t p e a =
      ground (arith, insert_pending-served repository number t s.committed p e)

  -- For a positive pull-request number of a stored repository, a served enqueue answers as the machine does and
  -- takes its step for that pull request, and no other pull request's attempts change.
  pub enqueue_refines :
      (repository : ℕ) (number : PullRequestNumber) (t : QueueTimestamp)
      → 0 < number.number
      → repository_exists repository s.committed.repositories ≡ true
      → ((enqueue repository number t s).0
          ≡ ok (spec_enqueue t.canonical (view s.committed repository number.number)).0)
        × ((k n : ℕ)
            → view (enqueue repository number t s).1.committed k n ≡ (
                if repository == k && number.number == n
                then (spec_enqueue t.canonical (view s.committed k n)).1
                else view s.committed k n))
  unfolding view spec_enqueue
  enqueue_refines repository number t p e =
      elim (Bool-cases
        (any (is_active_of repository number.number) s.committed.merge_queue_attempts)) [
          | inl a ↦ (
            ground (
              arith,
              enqueue-some repository number t p e a,
              first-none-any (is_active_of repository number.number)
                  s.committed.merge_queue_attempts,
            ),
            λ k n. ground (
              arith,
              enqueue-some repository number t p e a,
              first-none-any (is_active_of repository number.number)
                  s.committed.merge_queue_attempts,
            ),
          )
          | inr a ↦ (
            ground (
              arith,
              enqueue-none repository number t p e a,
              any-first-none (is_active_of repository number.number)
                  s.committed.merge_queue_attempts a,
            ),
            λ k n. ground (
              arith,
              enqueue-none repository number t p e a,
              any-first-none (is_active_of repository number.number)
                  s.committed.merge_queue_attempts a,
              view-append k n repository number t (next_rowid s.committed.merge_queue_attempts)
                  s.committed.merge_queue_attempts a,
            ),
          )
        ]

module _ (s : Session Database) (served : s.faults ≡ []) (f : TimeFormat) (repository : ℕ)
    (number : PullRequestNumber) (c : QueueCompletion) (terminal : c.outcome ≢ pending)
    (checked : all check_attempt s.committed.merge_queue_attempts ≡ true) where
  abbrev hits : List AttemptRow
  hits = keep (is_active_of repository number.number) s.committed.merge_queue_attempts

  abbrev after_update : Database
  after_update = record (s.committed) {
    merge_queue_attempts =
        update_where (is_active_of repository number.number) (completed_row c)
          s.committed.merge_queue_attempts;
  }

  complete_active-none :
      head_enqueued_at hits ≡ none
      → complete_active repository number c s.committed ≡ ok (none, s.committed)
  complete_active-none h = rw (
    complete_active-served repository number c s.committed terminal checked,
    h,
    update-none (is_active_of repository number.number) (completed_row c)
        s.committed.merge_queue_attempts h,
  )

  complete-none :
      head_enqueued_at hits ≡ none
      → ((complete f repository number c s).0
          ≡ ok (
              if any (ended_of repository number.number) s.committed.merge_queue_attempts
              then already_completed
              else missing_active_attempt))
        × ((complete f repository number c s).1.committed ≡ s.committed)
  unfolding complete classify begin commit in_transaction completed_exists
  complete-none h = ground (arith, complete_active-none h)

  complete-unreadable :
      (t : Text)
      → head_enqueued_at hits ≡ some t
      → parse_timestamp f t ≡ none
      → ((complete f repository number c s).0 ≡ err internal)
        × ((complete f repository number c s).1.committed ≡ s.committed)
  unfolding complete classify begin commit in_transaction
  complete-unreadable t h p =
      ground (arith, complete_active-served repository number c s.committed terminal checked)

  complete-some :
      (t : Text) (q : QueueTimestamp)
      → head_enqueued_at hits ≡ some t
      → parse_timestamp f t ≡ some q
      → ((complete f repository number c s).0 ≡ ok (completed q))
        × ((complete f repository number c s).1.committed ≡ after_update)
  unfolding complete classify begin commit in_transaction
  complete-some t q h p =
      ground (arith, complete_active-served repository number c s.committed terminal checked)

  -- For a terminal completion over rows that pass their CHECK constraints, a served completion
  -- answers as the machine does and takes its step for that pull request, and no other pull
  -- request's attempts change.
  pub complete_refines :
      ((complete f repository number c s).0
        ≡ (spec_complete f (view s.committed repository number.number)).0)
      × ((k n : ℕ)
          → view (complete f repository number c s).1.committed k n ≡ (
              if repository == k && number.number == n
              then (spec_complete f (view s.committed k n)).1
              else view s.committed k n))
  unfolding spec_complete view
  complete_refines = elim (Option-cases (head_enqueued_at hits)) [
    | inl h ↦ (ground (arith, complete-none h), λ k n. ground (arith, complete-none h))
    | inr (t, h) ↦ elim (Option-cases (parse_timestamp f t)) [
      | inl p ↦ (
        ground (arith, complete-unreadable t h p),
        λ k n. ground (arith, complete-unreadable t h p),
      )
      | inr (q, p) ↦ (
        ground (arith, complete-some t q h p),
        λ k n.
            ground
              (arith, complete-some t q h p, view-update k n repository number c s.committed t h),
      )
    ]
  ]
