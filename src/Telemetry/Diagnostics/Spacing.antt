-- ===== src/Telemetry/Diagnostics/Spacing.antt =====
-- The reports that the limiter of src/telemetry/diagnostics.rs allows.
use github_webhook_exporter.Prelude.{
  if◌then◌else◌, ℕ, ◌+◌, ◌%◌, ◌^◌, ◌≤◌, ◌≡◌, refl, Bool, true, false, Bool-cases, ltb, ◌==◌, ◌||◌,
  not, List, [], ◌∷◌, none, some, Option-cases, inl, inr, arith,
}
use github_webhook_exporter.Telemetry.Diagnostics.{
  CategoryLimiter, deadline_after, Claim, load, decide, swap, claimed, claim_step, System, started,
  claim_at, stepped, Event, step, begin, system_step, run,
}

-- Each report comes no earlier than the deadline after the one before it.
abbrev pub Spaced : List ℕ → Type 0
Spaced [] = Unit {0}
Spaced (now ∷ []) = Unit
Spaced (now ∷ earlier ∷ times) = (deadline_after earlier ≤ now) × Spaced (earlier ∷ times)

-- The limiter's deadline is that of the newest report.
abbrev Deadline : CategoryLimiter → List ℕ → Type 0
Deadline limiter [] = Unit {0}
Deadline limiter (now ∷ times) = limiter.next_report_millis ≡ deadline_after now

record IsConsistent (s : System) : Type 0 where
  spaced : Spaced s.allowed
  deadline : Deadline s.limiter s.allowed
  counted : (s.told + s.limiter.suppressed) % 2 ^ 64 ≡ s.refused % 2 ^ 64

extend :
    (now : ℕ) (times : List ℕ) (limiter : CategoryLimiter)
    → Spaced times
    → Deadline limiter times
    → limiter.next_report_millis ≤ now
    → Spaced (now ∷ times)
extend now [] limiter h d l = tt
extend now (t ∷ times) limiter h d l = (omega (arith, d), h)

stepped-IsConsistent :
    (thread : ℕ) (spurious : Bool) (c : Claim) (s : System)
    → IsConsistent s
    → IsConsistent (stepped thread c (claim_step spurious s.limiter c) s)
unfolding claim_step
stepped-IsConsistent thread spurious (load now) s h = record {
  spaced = h.spaced;
  deadline = h.deadline;
  counted = h.counted;
}
stepped-IsConsistent thread spurious (decide now observed) s h =
    elim (Bool-cases (ltb now observed)) [
      | inl early ↦
          rw early (record {
            spaced = h.spaced;
            deadline = h.deadline;
            counted = omega (arith, h.counted);
          })
      | inr due ↦ elim (Bool-cases (spurious || not (s.limiter.next_report_millis == observed))) [
        | inl lost ↦
            rw (due, lost)
              (record { spaced = h.spaced; deadline = h.deadline; counted = h.counted })
        | inr won ↦
            rw (due, won)
              (record {
                spaced =
                    extend now s.allowed s.limiter h.spaced h.deadline (ground (arith, due, won));
                deadline = refl;
                counted = h.counted;
              })
      ]
    ]
stepped-IsConsistent thread spurious swap s h = record {
  spaced = h.spaced;
  deadline = h.deadline;
  counted = omega (arith, h.counted);
}
stepped-IsConsistent thread spurious (claimed result) s h = record {
  spaced = h.spaced;
  deadline = h.deadline;
  counted = h.counted;
}

event-IsConsistent : (s : System) (e : Event) → IsConsistent s → IsConsistent (system_step s e)
unfolding system_step
event-IsConsistent s (begin now) h = record {
  spaced = h.spaced;
  deadline = h.deadline;
  counted = h.counted;
}
event-IsConsistent s (step thread spurious) h = elim (Option-cases (claim_at thread s.claims)) [
  | inl e ↦ rw e h
  | inr (c, e) ↦ rw e (stepped-IsConsistent thread spurious c s h)
]

run-IsConsistent : (s : System) (es : List Event) → IsConsistent s → IsConsistent (run s es)
unfolding run
run-IsConsistent s [] h = h
run-IsConsistent s (e ∷ es) h = run-IsConsistent (system_step s e) es (event-IsConsistent s e h)

-- However the threads interleave, and however often an exchange fails without a cause, each report
-- comes at least 60,000 ms after the one before it, or at the greatest `u64`; and the number of the
-- reports that were refused is, up to multiples of 2 ^ 64, that of those told by later reports and
-- those still counted.
pub limiter_spaces :
    (claims : List Claim) (es : List Event)
    → Spaced (run (started claims) es).allowed
      × (((run (started claims) es).told + (run (started claims) es).limiter.suppressed) % 2 ^ 64
          ≡ (run (started claims) es).refused % 2 ^ 64)
limiter_spaces claims es =
    let h =
      run-IsConsistent (started claims) es
        (record { spaced = tt; deadline = tt; counted = refl }) in
    (h.spaced, h.counted)

-- The steps of one thread that no other disturbs, from the beginning of its claim.
abbrev pub alone : ℕ → List Event
alone now = begin now ∷ step 0 false ∷ step 0 false ∷ step 0 false ∷ []

-- A thread whose time is not before the deadline, and which is not disturbed, is allowed its
-- report after three steps; the report tells the suppressed ones, which are then counted anew, and
-- the deadline is set. One whose time is before the deadline is refused, and counted.
pub claim_report_alone :
    (s : System) (now : ℕ)
    → (claim_at 0 (run s (alone now)).claims
        ≡ some (
            claimed
              (if ltb now s.limiter.next_report_millis then none else some s.limiter.suppressed)))
      × ((run s (alone now)).allowed
          ≡ (if ltb now s.limiter.next_report_millis then s.allowed else now ∷ s.allowed))
      × ((run s (alone now)).limiter ≡ (
          if ltb now s.limiter.next_report_millis
          then record s.limiter { suppressed = (s.limiter.suppressed + 1) % 2 ^ 64 }
          else record { next_report_millis = deadline_after now; suppressed = 0 }))
unfolding run system_step claim_step
claim_report_alone s now = elim (Bool-cases (ltb now s.limiter.next_report_millis)) [
  | inl early ↦ rw early (refl, refl, refl)
  | inr due ↦
      let same : (s.limiter.next_report_millis == s.limiter.next_report_millis) ≡ true =
        ground arith in
      rw (due, same) (refl, refl, refl)
]
