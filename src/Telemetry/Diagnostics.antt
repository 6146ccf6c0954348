-- ===== src/Telemetry/Diagnostics.antt =====
-- `CategoryLimiter` of src/telemetry/diagnostics.rs, which many threads share: each atomic
-- operation is a step, in any sequentially consistent interleaving.
pub mod Spacing
mod Tests
use github_webhook_exporter.Prelude.{
  ℕ, zero, suc, ◌+◌, ◌-◌, ◌%◌, ◌^◌, ◌==◌, ◌||◌, Bool, not, List, [], ◌∷◌, Option, none, some, min,
  ltb, if◌then◌else◌,
}

abbrev pub report_interval_millis : ℕ
report_interval_millis = 60000

pub record CategoryLimiter : Type 0 where
  pub next_report_millis : ℕ
  pub suppressed : ℕ

abbrev pub new_limiter : CategoryLimiter
new_limiter = record { next_report_millis = 0; suppressed = 0 }

-- `now_millis.saturating_add(REPORT_INTERVAL_MILLIS)`, on a `u64`.
abbrev pub deadline_after : ℕ → ℕ
deadline_after now = min (2 ^ 64 - 1) (now + report_interval_millis)

-- Where a thread stands in `claim_report`: before the load, in the loop with the deadline that it
-- observed, before the swap that follows its exchange, and at the result.
pub data Claim : Type 0 where
  load : (now : ℕ) → Claim
  decide : (now observed : ℕ) → Claim
  swap : Claim
  claimed : Option ℕ → Claim

-- One step; `spurious` is a `compare_exchange_weak` that fails without a cause.
unfoldable pub claim_step : (spurious : Bool) → CategoryLimiter → Claim → CategoryLimiter × Claim
claim_step spurious limiter (load now) = (limiter, decide now limiter.next_report_millis)
claim_step spurious limiter (decide now observed) =
    if ltb now observed
    then (record limiter { suppressed = (limiter.suppressed + 1) % 2 ^ 64 }, claimed none)
    else if spurious || not (limiter.next_report_millis == observed)
    then (limiter, decide now limiter.next_report_millis)
    else (record limiter { next_report_millis = deadline_after now }, swap)
claim_step spurious limiter swap =
    (record limiter { suppressed = 0 }, claimed (some limiter.suppressed))
claim_step spurious limiter (claimed result) = (limiter, claimed result)

-- The limiter with its threads, the times of the reports that were allowed so far, the newest
-- first, the number of those that were refused, and the number that reports told as suppressed.
pub record System : Type 0 where
  pub limiter : CategoryLimiter
  pub claims : List Claim
  pub allowed : List ℕ
  pub refused : ℕ
  pub told : ℕ

abbrev pub started : List Claim → System
started claims = record {
  limiter = new_limiter;
  claims = claims;
  allowed = [];
  refused = 0;
  told = 0;
}

-- What a step adds to the record of the reports.
abbrev pub noted : Claim → Claim → System → System
noted (decide now observed) swap s = record s { allowed = now ∷ s.allowed }
noted (decide now observed) (claimed none) s = record s { refused = s.refused + 1 }
noted swap (claimed (some suppressed)) s = record s { told = s.told + suppressed }
noted before after s = s

abbrev pub put : ℕ → Claim → List Claim → List Claim
put n c [] = []
put zero c (d ∷ ds) = c ∷ ds
put (suc n) c (d ∷ ds) = d ∷ put n c ds

abbrev pub claim_at : ℕ → List Claim → Option Claim
claim_at n [] = none
claim_at zero (d ∷ ds) = some d
claim_at (suc n) (d ∷ ds) = claim_at n ds

abbrev pub stepped : ℕ → Claim → CategoryLimiter × Claim → System → System
stepped thread before (limiter, after) s =
    noted before after (record s { limiter = limiter; claims = put thread after s.claims })

-- What the scheduler does: a thread takes a step, or a new claim begins.
pub data Event : Type 0 where
  step : (thread : ℕ) → (spurious : Bool) → Event
  begin : (now : ℕ) → Event

abbrev pub at_thread : ℕ → Bool → System → Option Claim → System
at_thread thread spurious s none = s
at_thread thread spurious s (some before) =
    stepped thread before (claim_step spurious s.limiter before) s

unfoldable pub system_step : System → Event → System
unfolding claim_step
system_step s (step thread spurious) = at_thread thread spurious s (claim_at thread s.claims)
system_step s (begin now) = record s { claims = load now ∷ s.claims }

unfoldable pub run : System → List Event → System
unfolding system_step
run s [] = s
run s (e ∷ es) = run (system_step s e) es
