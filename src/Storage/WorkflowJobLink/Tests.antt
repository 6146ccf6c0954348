-- ===== src/Storage/WorkflowJobLink/Tests.antt =====
-- The theorem on workflow-job links, at a failed job.
use github_webhook_exporter.Prelude.{
  ℕ, ◌≡◌, refl, Option, none, some, [], ◌∷◌, ◌++◌, find, Text, ok, arith,
}
use github_webhook_exporter.Prelude.Options.{and_then}
use github_webhook_exporter.Fixtures.{connected, failed_job, identity}
use github_webhook_exporter.Domain.Repository.{RepositoryId}
use github_webhook_exporter.Telemetry.Pipeline.{is_valid}
use github_webhook_exporter.Storage.Tables.{repository_exists}
use github_webhook_exporter.Storage.RequiredCheck.Fresh.{Serves}
use github_webhook_exporter.Storage.WorkflowJobLink.{Hex, is_job_row, record_link, into_summary}
use github_webhook_exporter.Storage.WorkflowJobLink.Links.{
  HexLaws, IsLinkable, summary_of, record_link_lem,
}

abbrev first : RepositoryId
first = record { id = 1 }

first-Serves : Serves first connected
unfolding repository_exists
first-Serves = (refl, refl)

abbrev head : Text → Option ℕ
head [] = none
head (c ∷ s) = some c

abbrev zeros_15 : Text
zeros_15 = 0 ∷ 0 ∷ 0 ∷ 0 ∷ 0 ∷ 0 ∷ 0 ∷ 0 ∷ 0 ∷ 0 ∷ 0 ∷ 0 ∷ 0 ∷ 0 ∷ 0 ∷ []

-- An identifier is shown as one code point, and filled up.
abbrev padded : Hex
padded = record {
  trace_to_hex = λ n. n ∷ 0 ∷ (zeros_15 ++ zeros_15);
  trace_from_hex = head;
  span_to_hex = λ n. n ∷ zeros_15;
  span_from_hex = head;
}

padded-HexLaws : HexLaws padded
padded-HexLaws = record {
  trace_read = λ n h. refl;
  span_read = λ n h. refl;
  trace_width = λ n h. refl;
  span_width = λ n h. refl;
}

failed_job-IsLinkable : IsLinkable failed_job identity 100 900
unfolding is_valid
failed_job-IsLinkable = record {
  identified = refl;
  trace_word = omega arith;
  span_word = omega arith;
  starts = refl;
  ends = refl;
  ordered = omega arith;
  representable = omega arith;
  run = omega arith;
  attempt = omega arith;
  number = omega arith;
  named = λ n e. cc;
}

record_link_lem_example :
    ((record_link padded (20 ∷ []) first failed_job identity connected).0 ≡ ok tt)
    × (and_then
          (find
            (is_job_row 1 77 1 5)
            (record_link padded
              (20 ∷ [])
              first
              failed_job
              identity
              connected).1.committed.workflow_job_links)
          (into_summary padded)
        ≡ some (summary_of failed_job identity))
record_link_lem_example =
    record_link_lem padded padded-HexLaws failed_job identity 100 900 failed_job-IsLinkable first
      (20 ∷ []) connected first-Serves
