-- ===== src/Retention/WorkflowTests.antt =====
-- The theorem on the retention of the workflow stores, at a database with an expired row in each.
use github_webhook_exporter.Prelude.{
  pos, ℕ, ◌*◌, ◌<◌, refl, Bool, false, none, [], ◌∷◌, lit, text_lt, arith,
}
use github_webhook_exporter.Fixtures.{clock, connected, tables}
use github_webhook_exporter.Storage.Sql.{Session}
use github_webhook_exporter.Storage.Tables.{Database}
use github_webhook_exporter.Storage.Prune.{eligible}
use github_webhook_exporter.Storage.WorkflowRun.{run_columns}
use github_webhook_exporter.Storage.WorkflowJobLink.{link_columns}
use github_webhook_exporter.Storage.RequiredCheck.{required_columns}
use github_webhook_exporter.Retention.{World, full_prune_batch_size}
use github_webhook_exporter.Retention.Batches.{Quiet, expired}
use github_webhook_exporter.Retention.WorkflowStores.{
  workflow_run_store, workflow_job_link_store, required_check_store, Emptied, run_rows, link_rows,
  check_rows, workflow_stores_drain,
}

abbrev cutoff : ℕ
cutoff = 25000000

abbrev never : ℕ → Bool
never k = false

abbrev stale : Database
stale = record tables {
  workflow_run_contexts =
      record {
        rowid = 1;
        repository_id = 1;
        workflow_run_id = 77;
        workflow_run_attempt = 1;
        event = lit "push";
        source_branch = none;
        target_branch = none;
        updated_at = 10 ∷ [];
      }
      ∷ [];
  workflow_job_links =
      record {
        rowid = 1;
        repository_id = 1;
        workflow_run_id = 77;
        workflow_run_attempt = 1;
        workflow_job_id = 5;
        job_name = none;
        conclusion = lit "success";
        trace_id = [];
        span_id = [];
        started_at_nanos = pos 100;
        completed_at_nanos = pos 900;
        timing_source = lit "reported";
        updated_at = 11 ∷ [];
      }
      ∷ [];
  required_check_contexts =
      record {
        rowid = 1;
        repository_id = 1;
        target_branch = lit "main";
        check_names = lit "build";
        updated_at = 12 ∷ [];
      }
      ∷ [];
}

abbrev session : Session Database
session = record connected { committed = stale; working = stale }

abbrev start : World (Session Database)
start = record { store = session; reads = 0 }

runs-Quiet : Quiet run_columns run_rows (25 ∷ []) session
runs-Quiet = ground arith

links-Quiet : Quiet link_columns link_rows (25 ∷ []) session
links-Quiet = ground arith

checks-Quiet : Quiet required_columns check_rows (25 ∷ []) session
checks-Quiet = ground arith

few_runs : expired run_columns run_rows (25 ∷ []) session < 1 * full_prune_batch_size
unfolding eligible text_lt
few_runs = omega arith

few_links : expired link_columns link_rows (25 ∷ []) session < 1 * full_prune_batch_size
unfolding eligible text_lt
few_links = omega arith

few_checks : expired required_columns check_rows (25 ∷ []) session < 1 * full_prune_batch_size
unfolding eligible text_lt
few_checks = omega arith

workflow_stores_drain_example :
    Emptied cutoff never 1 start (workflow_run_store clock) (expired run_columns run_rows (25 ∷ []))
    × Emptied cutoff never 1 start
        (workflow_job_link_store clock)
        (expired link_columns link_rows (25 ∷ []))
    × Emptied cutoff never 1 start
        (required_check_store clock)
        (expired required_columns check_rows (25 ∷ []))
workflow_stores_drain_example =
    workflow_stores_drain clock cutoff (25 ∷ []) refl never 1 start (λ k. refl) runs-Quiet
      links-Quiet checks-Quiet few_runs few_links few_checks
