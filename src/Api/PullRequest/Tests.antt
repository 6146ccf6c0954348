-- ===== src/Api/PullRequest/Tests.antt =====
-- The theorems on pull-request events, at events of two pull requests.
use github_webhook_exporter.Prelude.{ℕ, ◌≡◌, refl, true, some, none, [], ◌∷◌, pos, arith}
use github_webhook_exporter.Fixtures.{clock, at, number, octo, connected, tables}
use github_webhook_exporter.Domain.MergeQueue.{new, parse_timestamp}
use github_webhook_exporter.Storage.Tables.{check_attempt, repository_exists}
use github_webhook_exporter.Storage.MergeQueue.{is_active_of, is_attempt_of}
use github_webhook_exporter.Storage.MergeQueue.Machine.{view}
use github_webhook_exporter.Metrics.EventType.{EventType}
use github_webhook_exporter.Metrics.Action.{Action}
use github_webhook_exporter.Metrics.MergeQueue.{completed_by_merge}
use github_webhook_exporter.Metrics.MergeQueue.Completions.{Gained}
use github_webhook_exporter.Api.PullRequest.{
  PullRequestProjection, QueueProcessor, Services, to_enqueue, to_complete, transition,
  is_pull_request, event_timestamp, process,
}
use github_webhook_exporter.Api.PullRequest.Attempts.{
  Causes, IsReady, completion_counts_once, attempt_measured,
}

abbrev processor : Action → QueueProcessor
processor action = record {
  repository_id = 1;
  repository_name = octo;
  event_type = EventType.pull_request;
  action = action;
  received_at = 90000000;
}

abbrev payload : ℕ → ℕ → PullRequestProjection
payload n k = record { number = pos n; updated_at = some (k ∷ []); merged = some true }

abbrev services : Services
services = record { store = connected; samples = [] }

services-IsReady : IsReady services
unfolding is_active_of is_attempt_of check_attempt repository_exists
services-IsReady = record {
  served = refl;
  well_formed = record {
    one_active = λ repository n. ground arith;
    checked = refl;
    primary_key = ground arith;
    referenced = refl;
  };
}

closes_7 :
    Causes clock
      (processor Action.closed)
      (payload 7 30)
      (number 7)
      (to_complete completed_by_merge)
      (at 30)
unfolding is_pull_request new transition event_timestamp
closes_7 = record { event = refl; numbered = refl; changes = refl; timed = refl }

queues_9 : Causes clock (processor Action.enqueued) (payload 9 12) (number 9) to_enqueue (at 12)
unfolding is_pull_request new transition event_timestamp
queues_9 = record { event = refl; numbered = refl; changes = refl; timed = refl }

closes_9 :
    Causes clock
      (processor Action.closed)
      (payload 9 40)
      (number 9)
      (to_complete completed_by_merge)
      (at 40)
unfolding is_pull_request new transition event_timestamp
closes_9 = record { event = refl; numbered = refl; changes = refl; timed = refl }

active_7 : (view tables 1 7).active ≡ some (10 ∷ [])
unfolding view is_active_of
active_7 = refl

idle_9 : (view tables 1 9).active ≡ none
unfolding view is_active_of
idle_9 = refl

octo_exists : repository_exists 1 tables.repositories ≡ true
unfolding repository_exists
octo_exists = refl

read_10 : parse_timestamp clock (10 ∷ []) ≡ some (at 10)
unfolding parse_timestamp
read_10 = refl

read_12 : parse_timestamp clock (12 ∷ []) ≡ some (at 12)
unfolding parse_timestamp
read_12 = refl

completion_counts_once_example :
    ((process clock (processor Action.closed) (payload 7 30) services).0 ≡ none)
    × ((process clock
          (processor Action.closed)
          (payload 7 30)
          (process clock (processor Action.closed) (payload 7 30) services).1).0
        ≡ none)
    × ((process clock
          (processor Action.closed)
          (payload 7 30)
          (process clock (processor Action.closed) (payload 7 30) services).1).1.samples
        ≡ (process clock (processor Action.closed) (payload 7 30) services).1.samples)
completion_counts_once_example =
    completion_counts_once clock (processor Action.closed) (payload 7 30) (number 7) (at 30)
      services services-IsReady completed_by_merge (10 ∷ []) (at 10) closes_7 active_7 read_10

attempt_measured_example :
    ((process clock (processor Action.enqueued) (payload 9 12) services).0 ≡ none)
    × ((process clock
          (processor Action.closed)
          (payload 9 40)
          (process clock (processor Action.enqueued) (payload 9 12) services).1).0
        ≡ none)
    × Gained octo.name completed_by_merge
        (at 12).instant
        (at 40).instant
        []
        (process clock
          (processor Action.closed)
          (payload 9 40)
          (process clock (processor Action.enqueued) (payload 9 12) services).1).1.samples
attempt_measured_example =
    attempt_measured clock (processor Action.enqueued) (processor Action.closed) (payload 9 12)
      (payload 9 40) (number 9) (at 12) (at 40) (at 12) completed_by_merge services services-IsReady
      refl queues_9 closes_9 octo_exists idle_9 read_12
