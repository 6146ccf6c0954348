-- ===== src/Storage/WorkflowRun/Tests.antt =====
-- The theorems on the contexts of workflow runs, at one run.
use github_webhook_exporter.Prelude.{◌≡◌, refl, some, [], ◌∷◌, lit, text_eq, split, ok, arith}
use github_webhook_exporter.Fixtures.{connected, main_branch, run_context}
use github_webhook_exporter.Domain.Repository.{RepositoryId}
use github_webhook_exporter.Telemetry.Workflow.Names.{is_control, sanitize_branch}
use github_webhook_exporter.Storage.Tables.{repository_exists}
use github_webhook_exporter.Storage.RequiredCheck.Fresh.{Serves}
use github_webhook_exporter.Storage.WorkflowRun.{upsert, get}
use github_webhook_exporter.Storage.WorkflowRun.Contexts.{IsContext, get-upsert}

abbrev first : RepositoryId
first = record { id = 1 }

first-Serves : Serves first connected
unfolding repository_exists
first-Serves = (refl, refl)

main_kept : sanitize_branch (lit "main") ≡ some main_branch
unfolding sanitize_branch is_control text_eq split
main_kept = refl

run_context-IsContext : IsContext run_context
run_context-IsContext = record {
  run = omega arith;
  attempt = omega arith;
  source = (omega arith, omega arith, main_kept);
  target = tt;
}

get-upsert_example :
    ((upsert (20 ∷ []) first run_context connected).0 ≡ ok tt)
    × ((get first run_context.run_id run_context.run_attempt
          (upsert (20 ∷ []) first run_context connected).1).0
        ≡ ok (some run_context))
get-upsert_example =
    get-upsert first run_context (20 ∷ []) connected first-Serves run_context-IsContext
