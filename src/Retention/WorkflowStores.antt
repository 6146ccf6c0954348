-- ===== src/Retention/WorkflowStores.antt =====
-- The stores of workflow runs, workflow-job links and required checks as the prunable stores of
-- src/retention.rs.
use github_webhook_exporter.Prelude.{ℕ, ◌*◌, ◌<◌, ◌≡◌, Bool, false, List, some, arith, Text}
use github_webhook_exporter.Domain.Time.{TimeFormat}
use github_webhook_exporter.Storage.Sql.{Session, on_pool}
use github_webhook_exporter.Storage.Tables.{
  Database, WorkflowRunRow, WorkflowJobLinkRow, RequiredCheckRow,
}
use github_webhook_exporter.Storage.WorkflowRun
use github_webhook_exporter.Storage.WorkflowRun.{run_columns}
use github_webhook_exporter.Storage.WorkflowJobLink
use github_webhook_exporter.Storage.WorkflowJobLink.{link_columns}
use github_webhook_exporter.Storage.RequiredCheck
use github_webhook_exporter.Storage.RequiredCheck.{required_columns}
use github_webhook_exporter.Retention.{
  PrunableStore, World, Report, completed, full_prune_batch_size, prune_store,
}
use github_webhook_exporter.Retention.Stores.{erase}
use github_webhook_exporter.Retention.Batches.{BatchLaws, Quiet, expired, batches_complete}

unfoldable pub workflow_run_store : TimeFormat → PrunableStore (Session Database)
workflow_run_store f = record {
  prune_batch_erased = λ cutoff s. let (r, t) = WorkflowRun.prune_batch f cutoff s in (erase r, t);
}

unfoldable pub workflow_job_link_store : TimeFormat → PrunableStore (Session Database)
workflow_job_link_store f = record {
  prune_batch_erased =
      λ cutoff s. let (r, t) = WorkflowJobLink.prune_batch f cutoff s in (erase r, t);
}

unfoldable pub required_check_store : TimeFormat → PrunableStore (Session Database)
required_check_store f = record {
  prune_batch_erased =
      λ cutoff s. let (r, t) = RequiredCheck.prune_batch f cutoff s in (erase r, t);
}

abbrev pub run_rows : Session Database → List WorkflowRunRow
run_rows s = s.committed.workflow_run_contexts

abbrev pub link_rows : Session Database → List WorkflowJobLinkRow
link_rows s = s.committed.workflow_job_links

abbrev pub check_rows : Session Database → List RequiredCheckRow
check_rows s = s.committed.required_check_contexts

-- The store's loop returns and logs completion, and no expired row is left.
abbrev pub Emptied :
    ℕ
    → (ℕ → Bool)
    → ℕ
    → World (Session Database)
    → PrunableStore (Session Database)
    → (Session Database → ℕ)
    → Type 0
Emptied cutoff shutdown fuel w store remaining =
    (r : Report) × (w' : World (Session Database)) × (prune_store shutdown fuel store (some cutoff)
        w
      ≡ some (r, w'))
    × (r.outcome ≡ completed)
    × (remaining w'.store ≡ 0)

module _ (f : TimeFormat) (cutoff : ℕ) (text : Text)
    (formats : f.format_millis cutoff ≡ some text) where
  pub workflow_run_store-BatchLaws :
      BatchLaws (workflow_run_store f) cutoff run_columns run_rows text
  unfolding workflow_run_store WorkflowRun.prune_batch on_pool WorkflowRun.prune_contexts
  workflow_run_store-BatchLaws = record {
    failed_rows = λ s e. ground arith;
    served_rows = λ s n e. ground arith;
    undisturbed = λ s e. (ground arith, λ n. ground arith);
  }

  pub workflow_job_link_store-BatchLaws :
      BatchLaws (workflow_job_link_store f) cutoff link_columns link_rows text
  unfolding workflow_job_link_store WorkflowJobLink.prune_batch on_pool WorkflowJobLink.prune_links
  workflow_job_link_store-BatchLaws = record {
    failed_rows = λ s e. ground arith;
    served_rows = λ s n e. ground arith;
    undisturbed = λ s e. (ground arith, λ n. ground arith);
  }

  pub required_check_store-BatchLaws :
      BatchLaws (required_check_store f) cutoff required_columns check_rows text
  unfolding required_check_store RequiredCheck.prune_batch on_pool RequiredCheck.prune_checks
  required_check_store-BatchLaws = record {
    failed_rows = λ s e. ground arith;
    served_rows = λ s n e. ground arith;
    undisturbed = λ s e. (ground arith, λ n. ground arith);
  }

  -- With SQLite serving every call and no shutdown, distinct keys and a cutoff that can be shown,
  -- the retention of workflow runs, of workflow-job links and of required checks each returns
  -- with fuel for one batch per 1,000 expired rows and one more, logs completion, and leaves no row
  -- of its table older than the cutoff.
  pub workflow_stores_drain :
      (shutdown : ℕ → Bool) (fuel : ℕ) (w : World (Session Database))
      → ((k : ℕ) → shutdown k ≡ false)
      → Quiet run_columns run_rows text w.store
      → Quiet link_columns link_rows text w.store
      → Quiet required_columns check_rows text w.store
      → expired run_columns run_rows text w.store < fuel * full_prune_batch_size
      → expired link_columns link_rows text w.store < fuel * full_prune_batch_size
      → expired required_columns check_rows text w.store < fuel * full_prune_batch_size
      → Emptied cutoff shutdown fuel w (workflow_run_store f) (expired run_columns run_rows text)
        × Emptied cutoff shutdown fuel w
            (workflow_job_link_store f)
            (expired link_columns link_rows text)
        × Emptied cutoff shutdown fuel w
            (required_check_store f)
            (expired required_columns check_rows text)
  workflow_stores_drain shutdown fuel w go runs links checks few_runs few_links few_checks = (
    batches_complete run_columns run_rows text (workflow_run_store f) cutoff
        workflow_run_store-BatchLaws shutdown fuel w go runs few_runs,
    batches_complete link_columns link_rows text (workflow_job_link_store f) cutoff
        workflow_job_link_store-BatchLaws shutdown fuel w go links few_links,
    batches_complete required_columns check_rows text (required_check_store f) cutoff
        required_check_store-BatchLaws shutdown fuel w go checks few_checks,
  )
