-- ===== src/Telemetry/Workflow/Tests.antt =====
-- The theorems on names, branches and required checks, at concrete values.
use github_webhook_exporter.Prelude.{
  ◌⊎◌, false, ◌≤◌, ◌≡◌, ◌≢◌, refl, List, [], ◌∷◌, ◌++◌, any, take, keep, length, Text, lit, text_eq,
  split, some,
}
use github_webhook_exporter.Fixtures.{main_branch, display}
use github_webhook_exporter.Telemetry.Workflow.Names.{
  DisplayName, visible, is_control, sanitize_branch,
}
use github_webhook_exporter.Telemetry.Workflow.Sanitized.{sanitize_branch-IsSafe}
use github_webhook_exporter.Telemetry.Workflow.Required.{new_checks, contains}
use github_webhook_exporter.Telemetry.Workflow.RequiredSet.{Ascending, new_checks_lem}

main_kept : sanitize_branch (lit "main") ≡ some main_branch
unfolding sanitize_branch is_control text_eq split
main_kept = refl

sanitize_branch-IsSafe_example :
    (main_branch.text ≡ take 255 (keep visible (lit "main")))
    × (length main_branch.text ≤ 255)
    × (sanitize_branch main_branch.text ≡ some main_branch)
    × ((p q : Text) → b'/' ∷ (main_branch.text ++ lit "/") ≢ p ++ (lit "//" ++ q))
    × ((p q : Text) → b'/' ∷ (main_branch.text ++ lit "/") ≢ p ++ (lit "/./" ++ q))
    × ((p q : Text) → b'/' ∷ (main_branch.text ++ lit "/") ≢ p ++ (lit "/../" ++ q))
sanitize_branch-IsSafe_example = sanitize_branch-IsSafe (lit "main") main_branch main_kept

abbrev repeated : List DisplayName
repeated = display (lit "test") ∷ display (lit "build") ∷ display (lit "test") ∷ []

new_checks_lem_example :
    Ascending (new_checks repeated).names
    × (length (new_checks repeated).names ≤ 100)
    × ((contains (new_checks repeated) (lit "test")
          ≡ any (λ n. text_eq (lit "test") n.text) repeated)
        ⊎ ((length (new_checks repeated).names ≡ 100)
            × (contains (new_checks repeated) (lit "test") ≡ false)))
new_checks_lem_example = new_checks_lem repeated (lit "test")
