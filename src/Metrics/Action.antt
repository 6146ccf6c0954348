-- ===== src/Metrics/Action.antt =====
-- src/metrics.rs: the actions of the label vocabulary, and their normalization.
use github_webhook_exporter.Prelude.{Option, none, some, [], ◌∷◌, Text, lit, match_text}

pub data Action : Type 0 where
  assigned checks_requested closed completed created deleted dequeued destroyed edited : Action
  enqueued in_progress labeled opened published queued reopened requested : Action
  requested_action rerequested submitted synchronize unassigned unlabeled unpublished : Action
  updated waiting no_action other : Action

unfoldable pub action_as_str : Action → Text
action_as_str assigned = lit "assigned"
action_as_str checks_requested = lit "checks_requested"
action_as_str closed = lit "closed"
action_as_str completed = lit "completed"
action_as_str created = lit "created"
action_as_str deleted = lit "deleted"
action_as_str dequeued = lit "dequeued"
action_as_str destroyed = lit "destroyed"
action_as_str edited = lit "edited"
action_as_str enqueued = lit "enqueued"
action_as_str in_progress = lit "in_progress"
action_as_str labeled = lit "labeled"
action_as_str opened = lit "opened"
action_as_str published = lit "published"
action_as_str queued = lit "queued"
action_as_str reopened = lit "reopened"
action_as_str requested = lit "requested"
action_as_str requested_action = lit "requested_action"
action_as_str rerequested = lit "rerequested"
action_as_str submitted = lit "submitted"
action_as_str synchronize = lit "synchronize"
action_as_str unassigned = lit "unassigned"
action_as_str unlabeled = lit "unlabeled"
action_as_str unpublished = lit "unpublished"
action_as_str updated = lit "updated"
action_as_str waiting = lit "waiting"
action_as_str no_action = lit "none"
action_as_str other = lit "other"

unfoldable pub normalize_some_action : Text → Action
normalize_some_action =
    match_text
      ((lit "assigned", assigned)
        ∷ (lit "checks_requested", checks_requested)
        ∷ (lit "closed", closed)
        ∷ (lit "completed", completed)
        ∷ (lit "created", created)
        ∷ (lit "deleted", deleted)
        ∷ (lit "dequeued", dequeued)
        ∷ (lit "destroyed", destroyed)
        ∷ (lit "edited", edited)
        ∷ (lit "enqueued", enqueued)
        ∷ (lit "in_progress", in_progress)
        ∷ (lit "labeled", labeled)
        ∷ (lit "opened", opened)
        ∷ (lit "published", published)
        ∷ (lit "queued", queued)
        ∷ (lit "reopened", reopened)
        ∷ (lit "requested", requested)
        ∷ (lit "requested_action", requested_action)
        ∷ (lit "rerequested", rerequested)
        ∷ (lit "submitted", submitted)
        ∷ (lit "synchronize", synchronize)
        ∷ (lit "unassigned", unassigned)
        ∷ (lit "unlabeled", unlabeled)
        ∷ (lit "unpublished", unpublished)
        ∷ (lit "updated", updated)
        ∷ (lit "waiting", waiting)
        ∷ [])
      other

unfoldable pub normalize_action : Option Text → Action
unfolding normalize_some_action
normalize_action none = no_action
normalize_action (some raw_action) = normalize_some_action raw_action
