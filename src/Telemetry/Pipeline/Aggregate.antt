-- ===== src/Telemetry/Pipeline/Aggregate.antt =====
-- How the summary of src/telemetry/pipeline.rs covers its jobs.
use github_webhook_exporter.Prelude.{
  ◌≤◌, ◌<◌, ◌≡◌, ◌≢◌, ◌⊎◌, ltb→lt, refl, ap, sym, subst, Bool-cases, Option-cases, inl, inr, List,
  [], ◌∷◌, any, length, map, Option, none, some, ltb, arith,
}
use github_webhook_exporter.Prelude.Options.{some_not_none}
use github_webhook_exporter.Telemetry.Workflow.Vocabulary.{
  WorkflowConclusion, emits_synthetic_error,
}
use github_webhook_exporter.Telemetry.Workflow.Timing.{Ordered}
use github_webhook_exporter.Telemetry.Pipeline.{
  PipelineJobSummary, PipelineRunTraceParts, PipelineRunTrace, earliest, latest, aggregate_timing,
  most_severe, or_other, aggregate_conclusion, new_pipeline_run,
}
use github_webhook_exporter.Telemetry.Pipeline.Interval.{
  AllOrdered, AllWithin, starts, ends, earliest-none, latest-none, aggregate_timing-Within,
}
use github_webhook_exporter.Telemetry.Pipeline.Severity.{
  AtMost, most_severe-AtMost, most_severe-none, any-emits,
}

abbrev conclusions : List PipelineJobSummary → List WorkflowConclusion
conclusions jobs = map (λ (job : PipelineJobSummary). job.conclusion) jobs

not_empty {ℓ} : {A : Type ℓ} (x : A) (xs : List A) → x ∷ xs ≢ []
not_empty x xs e = cc

aggregate_timing_some :
    (job : PipelineJobSummary) (jobs : List PipelineJobSummary)
    → aggregate_timing (job ∷ jobs) ≢ none
unfolding aggregate_timing
aggregate_timing_some job jobs e = elim (Option-cases (earliest (starts (job ∷ jobs)))) [
  | inl f ↦ not_empty _ _ (earliest-none (starts (job ∷ jobs)) f)
  | inr (s, f) ↦ elim (Option-cases (latest (ends (job ∷ jobs)))) [
    | inl g ↦ not_empty _ _ (latest-none (ends (job ∷ jobs)) g)
    | inr (t, g) ↦ some_not_none (rw (f, g) at e)
  ]
]

aggregate_conclusion_lem :
    (job : PipelineJobSummary) (jobs : List PipelineJobSummary)
    → AtMost (aggregate_conclusion (job ∷ jobs)) (conclusions (job ∷ jobs))
      × (any emits_synthetic_error (conclusions (job ∷ jobs))
          ≡ emits_synthetic_error (aggregate_conclusion (job ∷ jobs)))
unfolding aggregate_conclusion
aggregate_conclusion_lem job jobs = elim (Option-cases (most_severe (conclusions (job ∷ jobs)))) [
  | inl e ↦
      absurd (
        not_empty job.conclusion (conclusions jobs) (most_severe-none (conclusions (job ∷ jobs)) e))
  | inr (m, e) ↦
      let decides : m ≡ aggregate_conclusion (job ∷ jobs) = ap or_other (sym e) in
      subst
        (λ x.
          AtMost x (conclusions (job ∷ jobs))
          × (any emits_synthetic_error (conclusions (job ∷ jobs)) ≡ emits_synthetic_error x))
        decides
        (
          most_severe-AtMost (conclusions (job ∷ jobs)) m e,
          any-emits (conclusions (job ∷ jobs)) m e,
        )
]

-- What a summary of the jobs is, and when there is none.
abbrev pub Summarizes : List PipelineJobSummary → Option PipelineRunTrace → Type 0
Summarizes jobs none = (jobs ≡ []) ⊎ (256 < length jobs)
Summarizes jobs (some t) =
    (1 ≤ length jobs)
    × (length jobs ≤ 256)
    × Ordered t.timing
    × AllWithin t.timing jobs
    × AtMost t.conclusion (conclusions jobs)
    × (any emits_synthetic_error (conclusions jobs) ≡ emits_synthetic_error t.conclusion)

summarized :
    (parts : PipelineRunTraceParts) (jobs : List PipelineJobSummary)
    → AllOrdered jobs
    → Summarizes jobs (new_pipeline_run (record parts { jobs = jobs }))
unfolding new_pipeline_run
summarized parts [] h = inl refl
summarized parts (job ∷ jobs) h = elim (Bool-cases (ltb 256 (length (job ∷ jobs)))) [
  | inl long ↦ rw long (inr (ltb→lt 256 _ long))
  | inr short ↦ elim (Option-cases (aggregate_timing (job ∷ jobs))) [
    | inl e ↦ absurd (aggregate_timing_some job jobs e)
    | inr (timing, e) ↦
        let (ordered, inside) = aggregate_timing-Within job jobs timing h e in
        let (most, emits) = aggregate_conclusion_lem job jobs in
        rw (short, e) (omega arith, ground (arith, short), ordered, inside, most, emits)
  ]
]

-- Of jobs whose intervals are in order there is a summary exactly if they are 1 to 256. Its
-- interval is in order and contains every job's; its conclusion is at least as severe as every
-- job's, and it is an error exactly if some job's is.
pub new_pipeline_run-Summarizes :
    (parts : PipelineRunTraceParts)
    → AllOrdered parts.jobs
    → Summarizes parts.jobs (new_pipeline_run parts)
new_pipeline_run-Summarizes parts h = summarized parts parts.jobs h
