-- ===== src/Api/MergeGroup.antt =====
-- src/api/merge_group.rs: the merge-group transitions that authenticated events carry.
use github_webhook_exporter.Prelude.{Bool, true, false, Option, none, some, Text}
use github_webhook_exporter.Metrics.EventType.{EventType}
use github_webhook_exporter.Metrics.Action.{Action}
use github_webhook_exporter.Telemetry.CommitSha.{CommitSha, parse_commit_sha}
use github_webhook_exporter.Metrics.MergeQueue.{
  MergeGroupAction, MergeGroupReason, without_reason, other, normalize_merge_group_destroyed_reason,
}

-- `serde_json::Value`, of which the handler reads strings only.
pub data Value : Type 0 where
  string : Text → Value
  not_string : Value

-- The fields that the transition reads; `head_sha` is that of the merge group, if there is one.
pub record EventProjection : Type 0 where
  pub reason : Option Value
  pub head_sha : Option Value

pub record MergeGroupTransition : Type 0 where
  pub action : MergeGroupAction
  pub reason : MergeGroupReason
  pub head_sha : Option CommitSha

abbrev pub as_str : Option Value → Option Text
as_str none = none
as_str (some (string text)) = some text
as_str (some not_string) = none

abbrev map_or : MergeGroupReason → Option Text → MergeGroupReason
map_or d none = d
map_or d (some text) = normalize_merge_group_destroyed_reason text

unfoldable pub is_merge_group : EventType → Bool
is_merge_group EventType.merge_group = true
is_merge_group _ = false

unfoldable sha_of : Option Text → Option CommitSha
unfolding parse_commit_sha
sha_of none = none
sha_of (some text) = parse_commit_sha text

unfoldable of_action : Action → EventProjection → Option MergeGroupTransition
unfolding sha_of
of_action Action.checks_requested projection = some (record {
  action = MergeGroupAction.checks_requested;
  reason = without_reason;
  head_sha = sha_of (as_str projection.head_sha);
})
of_action Action.destroyed projection = some (record {
  action = MergeGroupAction.destroyed;
  reason = map_or other (as_str projection.reason);
  head_sha = sha_of (as_str projection.head_sha);
})
of_action _ projection = none

unfoldable pub merge_group_transition :
    EventType → Action → EventProjection → Option MergeGroupTransition
unfolding is_merge_group of_action
merge_group_transition event_type action projection = elim (is_merge_group event_type) [
  | false ↦ none
  | true ↦ of_action action projection
]
