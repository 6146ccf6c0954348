-- ===== src/Fixtures.antt =====
-- Concrete values that the tests run on: a time format, a cipher, and a small database.
use github_webhook_exporter.Prelude.{
  ℕ, ◌<◌, ◌↔◌, refl, true, text_lt, ◌*◌, ◌/◌, ◌≡◌, sym, ap, false, Option, none, some, List, [],
  ◌∷◌, ◌++◌, drop, Text, pos, lit, arith,
}
use github_webhook_exporter.Domain.Time.{TimeFormat, TimeFormatLaws, nanos_per_milli}
use github_webhook_exporter.Domain.MergeQueue.{
  PullRequestNumber, QueueTimestamp, QueueCompletion, merged_completion,
}
use github_webhook_exporter.Security.Names.{CanonicalRepositoryName}
use github_webhook_exporter.Security.Secrets.{RepositorySecret, Crypto, CryptoLaws}
use github_webhook_exporter.Telemetry.Workflow.Names.{DisplayName, WorkflowBranch}
use github_webhook_exporter.Telemetry.Workflow.Required.{RequiredChecks}
use github_webhook_exporter.Telemetry.Workflow.Vocabulary.{merge_group, failure}
use github_webhook_exporter.Telemetry.Workflow.Timing.{HistoricalTiming, reported}
use github_webhook_exporter.Telemetry.Workflow.Trace.{WorkflowRunContext, WorkflowJobTrace}
use github_webhook_exporter.Telemetry.Pipeline.{WorkflowJobTraceIdentity}
use github_webhook_exporter.Storage.Sql.{Session, SqlxError, database}
use github_webhook_exporter.Storage.Tables.{RepositoryRow, AttemptRow, Database}

-- A time is shown as one code point, the number of its milliseconds.
abbrev read_time : Text → Option ℕ
read_time [] = none
read_time (k ∷ []) = some (k * nanos_per_milli)
read_time (k ∷ x ∷ s) = none

abbrev pub clock : TimeFormat
clock = record { parse_rfc3339 = read_time; format_millis = λ n. some (n / nanos_per_milli ∷ []) }

pub shown_time :
    (n : ℕ) (s : Text) → some (n / nanos_per_milli ∷ []) ≡ some s → n / nanos_per_milli ∷ [] ≡ s
shown_time n s e = cc

pub shown_order : (a b : ℕ) → (text_lt (a ∷ []) (b ∷ []) ≡ true) ↔ (a < b)
unfolding text_lt
shown_order a b = ground arith

unfoldable pub clock-TimeFormatLaws : TimeFormatLaws clock
clock-TimeFormatLaws = record {
  year_zero = 0;
  parse-format = λ n s h e. rw (← shown_time n s e) refl;
  format_ordered = λ m n s t h k e d.
      rw (← shown_time m s e, ← shown_time n t d)
        (shown_order (m / nanos_per_milli) (n / nanos_per_milli));
}

abbrev pub at : ℕ → QueueTimestamp
at k = record { canonical = k ∷ []; instant = k * nanos_per_milli }

abbrev pub number : ℕ → PullRequestNumber
number k = record { number = k }

abbrev pub merged_at : ℕ → QueueCompletion
merged_at k = merged_completion (at k)

abbrev zeros_12 : List ℕ
zeros_12 = 0 ∷ 0 ∷ 0 ∷ 0 ∷ 0 ∷ 0 ∷ 0 ∷ 0 ∷ 0 ∷ 0 ∷ 0 ∷ 0 ∷ []

abbrev pub nonce : List ℕ
nonce = zeros_12

abbrev tag : List ℕ
tag = 7 ∷ 7 ∷ 7 ∷ 7 ∷ zeros_12

-- A cipher that only puts a constant tag before the message.
abbrev pub plain_cipher : Crypto
plain_cipher = record {
  expand = λ key context. some key;
  seal = λ key nonce aad message. some (tag ++ message);
  unseal = λ key nonce aad sealed. some (drop 16 sealed);
}

abbrev without_tag : Option (List ℕ) → Option (List ℕ)
without_tag none = none
without_tag (some s) = some (drop 16 s)

unsealed :
    (message sealed : List ℕ)
    → some (tag ++ message) ≡ some sealed
    → some (drop 16 sealed) ≡ some message
unsealed message sealed e = ap without_tag (sym e)

pub plain_cipher-CryptoLaws : CryptoLaws plain_cipher
plain_cipher-CryptoLaws = record {
  unseal-seal = λ key nonce aad message sealed e. unsealed message sealed e;
  length-seal = λ key nonce aad message sealed e. ground arith;
}

abbrev pub secret : RepositorySecret
secret = record { bytes = lit "secret" }

abbrev pub key : List ℕ
key = 1 ∷ 2 ∷ 3 ∷ []

abbrev pub octo : CanonicalRepositoryName
octo = record { name = lit "octo/cat" }

abbrev pub octo_row : RepositoryRow
octo_row = record {
  id = 1;
  full_name = lit "octo/cat";
  webhook_secret_ciphertext = tag ++ lit "secret";
  webhook_secret_nonce = nonce;
  encryption_version = 1;
  enabled = 1;
  created_at = 1 ∷ [];
  updated_at = 1 ∷ [];
}

-- A row whose ciphertext holds no secret.
abbrev pub tampered_row : RepositoryRow
tampered_row = record octo_row {
  id = 2;
  full_name = lit "octo/dog";
  webhook_secret_ciphertext = tag;
}

abbrev pub waiting_row : AttemptRow
waiting_row = record {
  id = 1;
  repository_id = 1;
  pull_request_number = 7;
  enqueued_at = 10 ∷ [];
  completed_at = none;
  outcome = lit "pending";
  reason_code = lit "none";
}

abbrev pub ended_row : AttemptRow
ended_row = record {
  id = 2;
  repository_id = 1;
  pull_request_number = 8;
  enqueued_at = 11 ∷ [];
  completed_at = some (20 ∷ []);
  outcome = lit "succeeded";
  reason_code = lit "pull_request_merged";
}

abbrev pub tables : Database
tables = record {
  repositories = octo_row ∷ tampered_row ∷ [];
  processed_deliveries =
      record { delivery_id = 100; received_at = 5 ∷ [] }
      ∷ record { delivery_id = 101; received_at = 50 ∷ [] }
      ∷ [];
  merge_queue_attempts = waiting_row ∷ ended_row ∷ [];
  required_check_contexts = [];
  workflow_run_contexts = [];
  workflow_job_links = [];
}

abbrev pub connected : Session Database
connected = record { committed = tables; working = tables; faults = [] }

-- SQLite's code for a busy database.
abbrev pub busy : SqlxError
busy = database (some (lit "5")) false

-- The third call meets a busy database.
abbrev pub busy_third : Session Database
busy_third = record connected { faults = none ∷ none ∷ some busy ∷ [] }

-- The first call does.
abbrev pub busy_first : Session Database
busy_first = record connected { faults = some busy ∷ [] }

-- A branch, a set of two required checks, and the context of a run.
abbrev pub main_branch : WorkflowBranch
main_branch = record { text = lit "main" }

abbrev pub display : Text → DisplayName
display s = record { text = s }

abbrev pub two_checks : RequiredChecks
two_checks = record { names = display (lit "build") ∷ display (lit "test") ∷ [] }

abbrev pub run_context : WorkflowRunContext
run_context = record {
  run_id = record { id = 77 };
  run_attempt = record { attempt = 1 };
  event = merge_group;
  source_branch = some main_branch;
  target_branch = none;
}

abbrev pub job_timing : HistoricalTiming
job_timing = record { start = pos 100; end = pos 900; source = reported }

-- A failed job without a name.
abbrev pub failed_job : WorkflowJobTrace
failed_job = record {
  repository_name = octo;
  delivery_id = record { uuid = 102 };
  workflow_name = some (display (lit "ci"));
  run_id = record { id = 77 };
  run_attempt = record { attempt = 1 };
  job_id = record { id = 5 };
  job_name = none;
  conclusion = failure;
  head_sha = none;
  pull_requests = record { numbers = [] };
  workflow_run_context = some run_context;
  required = none;
  timing = job_timing;
  steps = [];
}

abbrev pub identity : WorkflowJobTraceIdentity
identity = record { trace_id = 11; span_id = 12 }
