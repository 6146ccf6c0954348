-- ===== src/Lib.antt =====
-- Verification of github_webhook_exporter, which receives GitHub webhooks, keeps deliveries,
-- repositories and merge-queue attempts in SQLite, and exports metrics and traces.
--
-- How the parts interact. A webhook names a repository and carries a signature. The repository
-- store yields the secret of an enabled repository, and the signature is verified with it. The
-- delivery store then claims the delivery's identifier once. A pull-request event enqueues or
-- completes an attempt in the merge-queue store, and events and actions are normalized to the
-- vocabulary of the metrics. The context of a workflow run is stored; a completed job is projected
-- to a bounded trace, with the required checks of its target branch, its failure becomes a synthetic
-- error, and the identity of its trace is stored, so that a completed run is summarized by one trace
-- over its jobs. Retention deletes old rows of the stores in bounded batches, and
-- spans and logs pass an admission boundary before the queue of the OpenTelemetry SDK.
--
-- Which file models which part:
--   Domain/MergeQueue       src/domain/merge_queue.rs: parse_outcome, outcome_as_str and so on are
--                           the methods `parse` and `as_str` of each type.
--   Domain/Repository       src/domain/repository.rs.
--   Domain/Delivery         src/domain/delivery.rs; a UUID is its value.
--   Domain/Time             the crate `time`: instants are nanoseconds, in natural numbers.
--   Storage/Sql             a session with SQLite: the committed database, the one that the open
--                           transaction works on, and the failures of the calls to come.
--   Storage/Tables          migrations/*.sql: the tables and their constraints.
--   Storage/Prune           the DELETE statement that the stores share.
--   Storage/MergeQueue      src/storage/merge_queue_store.rs: enqueue, complete,
--                           prune_completed_batch; Machine is the view of a client.
--   Storage/Delivery        src/storage/delivery_store.rs: claim, prune_batch.
--   Storage/Repository      src/storage/repository_store.rs: create, list, get, update, delete,
--                           count, authentication_material; Statements is its SQL.
--   Storage/Upsert          the INSERT … ON CONFLICT … DO UPDATE statement that three stores share.
--   Storage/RequiredCheck   src/storage/required_check_store.rs: upsert, get_fresh, prune_batch;
--                           Codec is about the text of the names, Fresh about the time-to-live.
--   Storage/WorkflowRun     src/storage/workflow_run_store.rs: upsert, get, prune_batch.
--   Storage/WorkflowJobLink src/storage/workflow_job_link_store.rs: record_link is `record`; list,
--                           prune_batch.
--   Retention               src/retention.rs: prune_store, prune_retention_pass; Stores makes the
--                           stores of deliveries and of attempts its clients, WorkflowStores the
--                           others; Batches is what their batches share.
--   Telemetry/Workflow      src/telemetry/workflow.rs: Names, Required, Vocabulary, Timing and Trace
--                           are its values; Sanitized and RequiredSet are about them.
--   Telemetry/WorkflowError src/telemetry/workflow_error.rs: new_error is `new`; the names of spans
--                           are those of src/telemetry/workflow.rs.
--   Telemetry/Pipeline      src/telemetry/pipeline.rs: new_pipeline_run is PipelineRunTrace::new;
--                           Interval and Severity are about its two aggregates.
--   Telemetry/Diagnostics   CategoryLimiter of src/telemetry/diagnostics.rs: claim_step is one
--                           atomic operation of claim_report; run is any interleaving of threads.
--   Telemetry/Queue         src/telemetry/queue.rs: try_admit, release, begin_export, close and
--                           drop_pending as steps, one for each atomic operation; System runs any
--                           interleaving of threads.
--   Metrics                 src/metrics.rs: EventType, Action and their normalization; MergeQueue
--                           records samples, of which a counter is the number; Completions is about
--                           those of a completed attempt.
--   Api/PullRequest         src/api/pull_request.rs: process, transition, apply_transition,
--                           complete_attempt; Attempts follows the events of a pull request.
--   Api/MergeGroup          src/api/merge_group.rs: merge_group_transition.
--   Api/WorkflowRun         src/api/workflow_run.rs: project_context, project_run_summary.
--   Api/WorkflowJob         src/api/workflow_job.rs: inspect_completed_job, project_completed_job.
--   Api/Repositories        src/api/repositories.rs: the five handlers; the gauge that they change is a
--                           field of AppState.
--   Api/Errors              src/error.rs: into_response; `none` is a panic.
--   Api/Webhook             src/api/webhook.rs: from_request, result_for_status and the answers to a
--                           failed authentication; Causes tells a refusal by the request.
--   Github/Client           src/github/client.rs: the failures and the choice of the check names.
--   Github/Refresh          src/github/refresh.rs: refresh and run; Burst and Failures are about them.
--   Telemetry/CommitSha     CommitSha::parse of src/telemetry/trace.rs.
--   Security/Names          CanonicalRepositoryName of src/security/mod.rs.
--   Security/Secrets        the rest of src/security/mod.rs, and src/security/secret_cipher.rs.
--   Security/Signature      src/security/webhook_auth.rs; Enabled tells it by the rows of the table.
--   Security/Admin          src/security/admin_auth.rs.
--   Prelude                 texts as lists of code points, UTF-8, Boolean tests and lists.
--   Fixtures, */Tests       concrete values, and each theorem at one of them.
--
-- Bounds and fuel. The loop of prune_store runs on fuel; one round for each 1,000 expired rows and
-- one more is enough (Retention.Drain). Instants of `SystemTime` and the stored nanoseconds are
-- integers, with the checks of their 64-bit seconds and nanoseconds written out. The limiter runs
-- on a finite list of events of any length. Counters of 64 bits saturate or wrap as in the source.
-- Identifiers are positive 64-bit integers in the source and natural numbers here.
--
-- Parameters. The crates behind the code (time, uuid, hex, axum, opentelemetry, AES-GCM, HKDF,
-- HMAC, SHA-2) are arguments of the definitions. SQLite is modelled by its statements; a call fails as the session
-- says, and a failed commit is rolled back.
--
-- Not modelled: the HTTP routes, the body of the webhook handler, the HTTP requests and tokens of
-- the GitHub client, the attributes and the emission of spans, the report to Sentry, the set-up of
-- the OpenTelemetry SDK, the configuration, the timer of the retention task, and the redacted
-- renderings, which hide a value from logs. Reading JSON is serde's: a projection begins with the
-- record that it yields.
pub mod Prelude
pub mod Fixtures
pub mod Domain
pub mod Storage
pub mod Retention
pub mod Telemetry
pub mod Metrics
pub mod Security
pub mod Api
pub mod Github
