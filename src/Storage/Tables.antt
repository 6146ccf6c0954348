-- ===== src/Storage/Tables.antt =====
-- The tables of migrations/*.sql that the modelled stores read and write, with their constraints.
use github_webhook_exporter.Prelude.{
  ℕ, ◌+◌, ◌==◌, ◌&&◌, ◌||◌, Bool, true, false, not, Option, none, some, List, [], ◌∷◌, any, Text,
  lit, text_eq, ltb, leb, leb_ℤ, ℤ, length, if◌then◌else◌,
}

pub record RepositoryRow : Type 0 where
  pub id : ℕ
  pub full_name : Text
  pub webhook_secret_ciphertext : List ℕ
  pub webhook_secret_nonce : List ℕ
  pub encryption_version : ℕ
  pub enabled : ℕ
  pub created_at : Text
  pub updated_at : Text

-- `delivery_id` is the UUID's value, which its text encodes.
pub record DeliveryRow : Type 0 where
  pub delivery_id : ℕ
  pub received_at : Text

pub record AttemptRow : Type 0 where
  pub id : ℕ
  pub repository_id : ℕ
  pub pull_request_number : ℕ
  pub enqueued_at : Text
  pub completed_at : Option Text
  pub outcome : Text
  pub reason_code : Text

-- The tables keyed by several columns have a `rowid` of their own.
pub record RequiredCheckRow : Type 0 where
  pub rowid : ℕ
  pub repository_id : ℕ
  pub target_branch : Text
  pub check_names : Text
  pub updated_at : Text

pub record WorkflowRunRow : Type 0 where
  pub rowid : ℕ
  pub repository_id : ℕ
  pub workflow_run_id : ℕ
  pub workflow_run_attempt : ℕ
  pub event : Text
  pub source_branch : Option Text
  pub target_branch : Option Text
  pub updated_at : Text

pub record WorkflowJobLinkRow : Type 0 where
  pub rowid : ℕ
  pub repository_id : ℕ
  pub workflow_run_id : ℕ
  pub workflow_run_attempt : ℕ
  pub workflow_job_id : ℕ
  pub job_name : Option Text
  pub conclusion : Text
  pub trace_id : Text
  pub span_id : Text
  pub started_at_nanos : ℤ
  pub completed_at_nanos : ℤ
  pub timing_source : Text
  pub updated_at : Text

pub record Database : Type 0 where
  pub repositories : List RepositoryRow
  pub processed_deliveries : List DeliveryRow
  pub merge_queue_attempts : List AttemptRow
  pub required_check_contexts : List RequiredCheckRow
  pub workflow_run_contexts : List WorkflowRunRow
  pub workflow_job_links : List WorkflowJobLinkRow

abbrev pub is_null : {A : Type 0} → Option A → Bool
is_null none = true
is_null (some a) = false

-- The CHECK constraints of `merge_queue_attempts`.
unfoldable pub check_attempt : AttemptRow → Bool
unfolding text_eq
check_attempt r =
    ltb 0 r.pull_request_number
    && any (text_eq r.outcome)
        (lit "pending" ∷ lit "succeeded" ∷ lit "failed" ∷ lit "cancelled" ∷ lit "unknown" ∷ [])
    && (text_eq r.outcome (lit "pending") && is_null r.completed_at
        || not (text_eq r.outcome (lit "pending")) && not (is_null r.completed_at))

-- `length(text) BETWEEN 1 AND n`, and the same for a column that may be NULL.
abbrev length_within : ℕ → Text → Bool
length_within n text = leb 1 (length text) && leb (length text) n

abbrev pub length_within_or_null : ℕ → Option Text → Bool
length_within_or_null n none = true
length_within_or_null n (some text) = length_within n text

-- The CHECK constraints of `required_check_contexts`. No text that is stored has a NUL, where
-- SQLite's `length` would stop.
unfoldable pub check_required : RequiredCheckRow → Bool
check_required r = length_within 255 r.target_branch && leb (length r.check_names) 16384

-- The CHECK constraints of `workflow_run_contexts`.
unfoldable pub check_run : WorkflowRunRow → Bool
unfolding text_eq
check_run r =
    ltb 0 r.workflow_run_id
    && ltb 0 r.workflow_run_attempt
    && any (text_eq r.event)
        (lit "pull_request" ∷ lit "merge_group" ∷ lit "push" ∷ lit "other" ∷ [])
    && length_within_or_null 255 r.source_branch
    && length_within_or_null 255 r.target_branch

-- The CHECK constraints of `workflow_job_links`.
unfoldable pub check_link : WorkflowJobLinkRow → Bool
unfolding text_eq
check_link r =
    ltb 0 r.workflow_run_id
    && ltb 0 r.workflow_run_attempt
    && ltb 0 r.workflow_job_id
    && length_within_or_null 128 r.job_name
    && any (text_eq r.conclusion) (
        lit "success"
        ∷ lit "failure"
        ∷ lit "cancelled"
        ∷ lit "skipped"
        ∷ lit "timed_out"
        ∷ lit "neutral"
        ∷ lit "other"
        ∷ [])
    && length r.trace_id == 32
    && length r.span_id == 16
    && leb_ℤ r.started_at_nanos r.completed_at_nanos
    && any (text_eq r.timing_source) (lit "reported" ∷ lit "fallback" ∷ [])

-- The foreign key into `repositories`.
unfoldable pub repository_exists : ℕ → List RepositoryRow → Bool
repository_exists k = any (λ r. r.id == k)

-- The rowid that SQLite gives to a new row: one more than the largest in use.
unfoldable pub next_rowid : List AttemptRow → ℕ
next_rowid [] = 1
next_rowid (r ∷ rs) = let rest = next_rowid rs in if ltb r.id rest then rest else r.id + 1
