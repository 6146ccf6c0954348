-- ===== src/Github/Refresh/Tests.antt =====
-- The theorems on the refresher, at two requests for one branch.
use github_webhook_exporter.Prelude.{ℕ, ◌+◌, ◌≡◌, refl, false, [], ◌∷◌, All, ok, text_lt, arith}
use github_webhook_exporter.Fixtures.{
  clock, clock-TimeFormatLaws, connected, busy_first, octo, main_branch, two_checks,
}
use github_webhook_exporter.Telemetry.Workflow.Names.{is_control}
use github_webhook_exporter.Storage.Sql.{on_pool}
use github_webhook_exporter.Storage.Tables.{repository_exists}
use github_webhook_exporter.Storage.RequiredCheck.{get_fresh, freshness_cutoff, select_fresh}
use github_webhook_exporter.Storage.RequiredCheck.Codec.{IsCheckSet}
use github_webhook_exporter.Storage.RequiredCheck.Fresh.{IsTimed}
use github_webhook_exporter.Github.Refresh.{
  Turn, RequiredCheckSource, RequiredCheckRefresher, RequiredCheckRefreshRequest, refresh, run,
}
use github_webhook_exporter.Github.Refresh.Burst.{Repeats, filled, Misses, burst_reads_once}
use github_webhook_exporter.Github.Refresh.Failures.{Refreshes, refresh-Refreshes}

-- A source that counts its calls.
abbrev counting : RequiredCheckSource ℕ
counting = record { required_checks = λ calls name branch now. (ok two_checks, calls + 1) }

abbrev asked : RequiredCheckRefreshRequest
asked = record { repository_id = record { id = 1 }; repository_name = octo; branch = main_branch }

abbrev first : Turn
first = record { cancelled = false; asked = asked; now = 45000000; written = 20 ∷ [] }

abbrev second : Turn
second = record { cancelled = false; asked = asked; now = 50000000; written = 50 ∷ [] }

abbrev idle : RequiredCheckRefresher ℕ
idle = record { source = 0; store = connected }

abbrev disturbed : RequiredCheckRefresher ℕ
disturbed = record { source = 0; store = busy_first }

two_checks-IsCheckSet : IsCheckSet two_checks
unfolding text_lt is_control
two_checks-IsCheckSet = record {
  ascending = (refl, (refl, tt));
  few = omega arith;
  all_names = (
    record { nonempty = omega arith; bounded = omega arith; printable = refl },
    (record { nonempty = omega arith; bounded = omega arith; printable = refl }, tt),
  );
}

first-Misses : Misses clock clock-TimeFormatLaws 40000000 counting first idle two_checks
unfolding repository_exists get_fresh freshness_cutoff on_pool select_fresh
first-Misses = record {
  goes_on = refl;
  serves = (refl, refl);
  branch_nonempty = omega arith;
  branch_bounded = omega arith;
  missed = refl;
  answer = refl;
  set = two_checks-IsCheckSet;
}

timed : IsTimed clock clock-TimeFormatLaws 40000000 20000000 50000000 (20 ∷ []) (10 ∷ [])
unfolding clock-TimeFormatLaws
timed = record {
  written_text = refl;
  cutoff_text = refl;
  written_era = omega arith;
  cutoff_era = omega arith;
  short = omega arith;
}

second-Repeats :
    All (Repeats clock clock-TimeFormatLaws 40000000 first 20000000) (second ∷ second ∷ [])
second-Repeats =
    let again : Repeats clock clock-TimeFormatLaws 40000000 first 20000000 second =
      (refl, refl, refl, (10 ∷ [], timed), omega arith) in
    (again, (again, tt))

burst_reads_once_example :
    run clock 40000000 counting (first ∷ second ∷ second ∷ []) idle
    ≡ filled clock clock-TimeFormatLaws 40000000 counting first idle two_checks
burst_reads_once_example =
    burst_reads_once clock clock-TimeFormatLaws 40000000 counting first idle two_checks first-Misses
      20000000 (second ∷ second ∷ []) second-Repeats

refresh-Refreshes_example :
    Refreshes first disturbed
      (get_fresh clock 40000000 asked.repository_id main_branch 45000000 busy_first).1
      1
      (get_fresh clock 40000000 asked.repository_id main_branch 45000000 busy_first).0
      (ok two_checks)
      (refresh clock 40000000 counting first disturbed)
refresh-Refreshes_example = refresh-Refreshes clock 40000000 counting first disturbed
