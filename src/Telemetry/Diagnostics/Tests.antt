-- ===== src/Telemetry/Diagnostics/Tests.antt =====
-- The theorems on the limiter, at two threads.
use github_webhook_exporter.Prelude.{
  if◌then◌else◌, ltb, ◌+◌, ◌%◌, ◌^◌, ◌≡◌, false, true, List, [], ◌∷◌, none, some,
}
use github_webhook_exporter.Telemetry.Diagnostics.{
  claimed, claim_at, Event, step, begin, run, started, deadline_after,
}
use github_webhook_exporter.Telemetry.Diagnostics.Spacing.{
  Spaced, limiter_spaces, alone, claim_report_alone,
}

-- Two threads come in the same millisecond; the first exchange wins.
abbrev race : List Event
race =
    begin 5
    ∷ begin 5
    ∷ step 0 false
    ∷ step 1 false
    ∷ step 1 false
    ∷ step 0 false
    ∷ step 0 true
    ∷ step 1 false
    ∷ []

limiter_spaces_example :
    Spaced (run (started []) race).allowed
    × (((run (started []) race).told + (run (started []) race).limiter.suppressed) % 2 ^ 64
        ≡ (run (started []) race).refused % 2 ^ 64)
limiter_spaces_example = limiter_spaces [] race

claim_report_alone_example :
    (claim_at 0 (run (started []) (alone 5)).claims
      ≡ some (claimed (if ltb 5 0 then none else some 0)))
    × ((run (started []) (alone 5)).allowed ≡ (if ltb 5 0 then [] else 5 ∷ []))
    × ((run (started []) (alone 5)).limiter ≡ (
        if ltb 5 0
        then record { next_report_millis = 0; suppressed = (0 + 1) % 2 ^ 64 }
        else record { next_report_millis = deadline_after 5; suppressed = 0 }))
claim_report_alone_example = claim_report_alone (started []) 5
