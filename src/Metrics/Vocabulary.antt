-- ===== src/Metrics/Vocabulary.antt =====
-- The normalization of src/metrics.rs against the label values of its vocabularies.
use github_webhook_exporter.Prelude.{
  ◌≡◌, ◌≢◌, ◌↔◌, ◌∙◌, sym, ap, refl, ◌⊎◌, inl, inr, some, Text, lookup_text, match_text,
  match_text-spelled,
}
use github_webhook_exporter.Metrics.EventType.{EventType, event_type_as_str, normalize_event_type}
use github_webhook_exporter.Metrics.Action.{Action, no_action, action_as_str, normalize_action}

normalize-event_type_as_str : (e : EventType) → normalize_event_type (event_type_as_str e) ≡ e
unfolding normalize_event_type event_type_as_str match_text lookup_text
normalize-event_type_as_str EventType.branch_protection_rule = refl
normalize-event_type_as_str e = refl

normalize_event_type_exact :
    (raw : Text)
    → (normalize_event_type raw ≡ EventType.other)
      ⊎ (raw ≡ event_type_as_str (normalize_event_type raw))
unfolding normalize_event_type event_type_as_str
normalize_event_type_exact raw = match_text-spelled event_type_as_str _ EventType.other raw refl

normalize-action_as_str :
    (a : Action) → a ≢ no_action → normalize_action (some (action_as_str a)) ≡ a
unfolding normalize_action action_as_str match_text lookup_text
normalize-action_as_str Action.assigned h = refl
normalize-action_as_str Action.no_action h = absurd (h refl)
normalize-action_as_str a h = refl

normalize_action_exact :
    (raw : Text)
    → (normalize_action (some raw) ≡ Action.other)
      ⊎ (raw ≡ action_as_str (normalize_action (some raw)))
unfolding normalize_action action_as_str
normalize_action_exact raw = match_text-spelled action_as_str _ Action.other raw refl

-- A text is normalized to an event type other than `other` exactly when it is that event type's
-- label value.
pub normalize_event_type_iff :
    (raw : Text) (e : EventType)
    → e ≢ EventType.other
    → (normalize_event_type raw ≡ e) ↔ (raw ≡ event_type_as_str e)
normalize_event_type_iff raw e h = (
  λ n. elim (normalize_event_type_exact raw) [
    | inl o ↦ absurd (h (sym n ∙ o))
    | inr spelled ↦ spelled ∙ ap event_type_as_str n
  ],
  λ spelled. ap normalize_event_type spelled ∙ normalize-event_type_as_str e,
)

-- A text is normalized to an action other than `other` exactly when it is that action's label
-- value, and to no action at all by no text.
pub normalize_action_iff :
    (raw : Text) (a : Action)
    → a ≢ Action.other
    → a ≢ no_action
    → (normalize_action (some raw) ≡ a) ↔ (raw ≡ action_as_str a)
normalize_action_iff raw a h k = (
  λ n. elim (normalize_action_exact raw) [
    | inl o ↦ absurd (h (sym n ∙ o))
    | inr spelled ↦ spelled ∙ ap action_as_str n
  ],
  λ spelled. ap (λ t. normalize_action (some t)) spelled ∙ normalize-action_as_str a k,
)
