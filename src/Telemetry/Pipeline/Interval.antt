-- ===== src/Telemetry/Pipeline/Interval.antt =====
-- The interval of a run's summary in src/telemetry/pipeline.rs.
use github_webhook_exporter.Prelude.{
  ◌≡◌, refl, sym, ◌∙◌, subst, Option-cases, inl, inr, List, [], ◌∷◌, All, map, none, some, leb_ℤ,
  ◌≤ℤ◌, arith, if◌then◌else◌,
}
use github_webhook_exporter.Prelude.Options.{some_inj, bound_some}
use github_webhook_exporter.Telemetry.Workflow.Timing.{
  SystemTime, TimingSource, HistoricalTiming, derived_timing, Ordered, Within,
}
use github_webhook_exporter.Telemetry.Pipeline.{
  PipelineJobSummary, earliest, latest, aggregate_source, or_fallback, aggregate_timing,
}

-- Every instant of the list is at or after s; at or before it.
abbrev AllAfter : SystemTime → List SystemTime → Type 0
AllAfter s = All (λ t. s ≤ℤ t)

abbrev AllBefore : SystemTime → List SystemTime → Type 0
AllBefore s = All (λ t. t ≤ℤ s)

AllAfter-weaken : (s u : SystemTime) (ts : List SystemTime) → s ≤ℤ u → AllAfter u ts → AllAfter s ts
AllAfter-weaken s u [] l h = tt
AllAfter-weaken s u (t ∷ ts) l h = (omega (arith, l, h.0), AllAfter-weaken s u ts l h.1)

AllBefore-weaken :
    (s u : SystemTime) (ts : List SystemTime) → u ≤ℤ s → AllBefore u ts → AllBefore s ts
AllBefore-weaken s u [] l h = tt
AllBefore-weaken s u (t ∷ ts) l h = (omega (arith, l, h.0), AllBefore-weaken s u ts l h.1)

abbrev least : SystemTime → SystemTime → SystemTime
least t u = if leb_ℤ t u then t else u

least-le : (t u : SystemTime) → (least t u ≤ℤ t) × (least t u ≤ℤ u)
least-le t u = ground arith

abbrev greatest : SystemTime → SystemTime → SystemTime
greatest t u = if leb_ℤ t u then u else t

le-greatest : (t u : SystemTime) → (t ≤ℤ greatest t u) × (u ≤ℤ greatest t u)
le-greatest t u = ground arith

le_refl : (t : SystemTime) → t ≤ℤ t
le_refl t = omega arith

pub earliest-none : (ts : List SystemTime) → earliest ts ≡ none → ts ≡ []
unfolding earliest
earliest-none [] e = refl
earliest-none (t ∷ ts) e = elim (Option-cases (earliest ts)) [
  | inl f ↦ absurd (ground (arith, f))
  | inr (u, f) ↦ absurd (ground (arith, f))
]

pub latest-none : (ts : List SystemTime) → latest ts ≡ none → ts ≡ []
unfolding latest
latest-none [] e = refl
latest-none (t ∷ ts) e = elim (Option-cases (latest ts)) [
  | inl f ↦ absurd (ground (arith, f))
  | inr (u, f) ↦ absurd (ground (arith, f))
]

earliest-AllAfter : (ts : List SystemTime) (s : SystemTime) → earliest ts ≡ some s → AllAfter s ts
unfolding earliest
earliest-AllAfter [] s e = tt
earliest-AllAfter (t ∷ ts) s e = elim (Option-cases (earliest ts)) [
  | inl f ↦ rw (earliest-none ts f) (rw (← some_inj _ _ (rw f at e)) (le_refl t), tt)
  | inr (u, f) ↦
      let (first, later) = least-le t u in
      subst (λ x. AllAfter x (t ∷ ts)) (some_inj _ _ (rw f at e))
        (first, AllAfter-weaken (least t u) u ts later (earliest-AllAfter ts u f))
]

latest-AllBefore : (ts : List SystemTime) (s : SystemTime) → latest ts ≡ some s → AllBefore s ts
unfolding latest
latest-AllBefore [] s e = tt
latest-AllBefore (t ∷ ts) s e = elim (Option-cases (latest ts)) [
  | inl f ↦ rw (latest-none ts f) (rw (← some_inj _ _ (rw f at e)) (le_refl t), tt)
  | inr (u, f) ↦
      let (first, later) = le-greatest t u in
      subst (λ x. AllBefore x (t ∷ ts)) (some_inj _ _ (rw f at e))
        (first, AllBefore-weaken (greatest t u) u ts later (latest-AllBefore ts u f))
]

abbrev pub starts : List PipelineJobSummary → List SystemTime
starts jobs = map (λ (job : PipelineJobSummary). job.timing.start) jobs

abbrev pub ends : List PipelineJobSummary → List SystemTime
ends jobs = map (λ (job : PipelineJobSummary). job.timing.end) jobs

abbrev pub AllOrdered : List PipelineJobSummary → Type 0
AllOrdered = All (λ (job : PipelineJobSummary). Ordered job.timing)

abbrev pub AllWithin : HistoricalTiming → List PipelineJobSummary → Type 0
AllWithin timing = All (λ (job : PipelineJobSummary). Within job.timing timing)

both_bounds :
    (timing : HistoricalTiming) (jobs : List PipelineJobSummary)
    → AllAfter timing.start (starts jobs)
    → AllBefore timing.end (ends jobs)
    → AllWithin timing jobs
both_bounds timing [] h k = tt
both_bounds timing (job ∷ jobs) h k = ((h.0, k.0), both_bounds timing jobs h.1 k.1)

kept_bounds :
    (start end : SystemTime) (source : TimingSource)
    → start ≤ℤ end
    → (s : TimingSource) × (or_fallback end (derived_timing start end source)
        ≡ record { start = start; end = end; source = s })
unfolding derived_timing
kept_bounds start end source h = (source, ground arith)

pub aggregate_timing-Within :
    (job : PipelineJobSummary) (jobs : List PipelineJobSummary) (timing : HistoricalTiming)
    → AllOrdered (job ∷ jobs)
    → aggregate_timing (job ∷ jobs) ≡ some timing
    → Ordered timing × AllWithin timing (job ∷ jobs)
unfolding aggregate_timing
aggregate_timing-Within job jobs timing h e =
    let (start, e1, k) = bound_some (earliest (starts (job ∷ jobs))) _ timing e in
    let (end, e2, k2) = bound_some (latest (ends (job ∷ jobs))) _ timing k in
    let after = earliest-AllAfter (starts (job ∷ jobs)) start e1 in
    let before = latest-AllBefore (ends (job ∷ jobs)) end e2 in
    let ordered : start ≤ℤ end = omega (arith, after.0, before.0, h.0) in
    let (source, same) = kept_bounds start end (aggregate_source (job ∷ jobs)) ordered in
    let shape : record { start = start; end = end; source = source } ≡ timing =
      sym same ∙ some_inj _ _ k2 in
    subst (λ t. Ordered t × AllWithin t (job ∷ jobs)) shape
      (
        ordered,
        both_bounds (record { start = start; end = end; source = source }) (job ∷ jobs) after
            before,
      )
