-- ===== src/Telemetry/Pipeline/Severity.antt =====
-- The conclusion of a run's summary in src/telemetry/pipeline.rs.
use github_webhook_exporter.Prelude.{
  ◌≤◌, ◌≡◌, refl, subst, Option-cases, inl, inr, List, [], ◌∷◌, any, All, none, some, leb, arith,
  if◌then◌else◌,
}
use github_webhook_exporter.Prelude.Options.{some_inj}
use github_webhook_exporter.Telemetry.Workflow.Vocabulary.{
  WorkflowConclusion, emits_synthetic_error, success,
}
use github_webhook_exporter.Telemetry.Pipeline.{run_severity, most_severe, or_other}

emits-run_severity : (c : WorkflowConclusion) → emits_synthetic_error c ≡ leb 5 (run_severity c)
unfolding emits_synthetic_error run_severity
emits-run_severity success = refl
emits-run_severity c = refl

abbrev pub AtMost : WorkflowConclusion → List WorkflowConclusion → Type 0
AtMost m = All (λ c. run_severity c ≤ run_severity m)

AtMost-weaken :
    (m d : WorkflowConclusion) (cs : List WorkflowConclusion)
    → run_severity d ≤ run_severity m
    → AtMost d cs
    → AtMost m cs
AtMost-weaken m d [] l h = tt
AtMost-weaken m d (c ∷ cs) l h = (omega (arith, l, h.0), AtMost-weaken m d cs l h.1)

abbrev severer : WorkflowConclusion → WorkflowConclusion → WorkflowConclusion
severer c d = if leb (run_severity c) (run_severity d) then d else c

le-severer :
    (c d : WorkflowConclusion)
    → (run_severity c ≤ run_severity (severer c d)) × (run_severity d ≤ run_severity (severer c d))
le-severer c d = ground arith

pub most_severe-none : (cs : List WorkflowConclusion) → most_severe cs ≡ none → cs ≡ []
unfolding most_severe
most_severe-none [] e = refl
most_severe-none (c ∷ cs) e = elim (Option-cases (most_severe cs)) [
  | inl f ↦ absurd (ground (arith, f))
  | inr (d, f) ↦ absurd (ground (arith, f))
]

pub most_severe-AtMost :
    (cs : List WorkflowConclusion) (m : WorkflowConclusion) → most_severe cs ≡ some m → AtMost m cs
unfolding most_severe
most_severe-AtMost [] m e = tt
most_severe-AtMost (c ∷ cs) m e = elim (Option-cases (most_severe cs)) [
  | inl f ↦ rw (most_severe-none cs f) (rw (← some_inj _ _ (rw f at e)) (omega arith), tt)
  | inr (d, f) ↦
      let (first, later) = le-severer c d in
      subst (λ x. AtMost x (c ∷ cs)) (some_inj _ _ (rw f at e))
        (first, AtMost-weaken (severer c d) d cs later (most_severe-AtMost cs d f))
]

pub any-emits :
    (cs : List WorkflowConclusion) (m : WorkflowConclusion)
    → most_severe cs ≡ some m
    → any emits_synthetic_error cs ≡ emits_synthetic_error m
unfolding most_severe
any-emits [] m e = cc
any-emits (c ∷ cs) m e = ground (
  arith,
  most_severe-none cs,
  emits-run_severity c,
  emits-run_severity m,
  emits-run_severity (or_other (most_severe cs)),
  any-emits cs (or_other (most_severe cs)),
)
