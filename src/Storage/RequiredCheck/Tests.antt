-- ===== src/Storage/RequiredCheck/Tests.antt =====
-- The theorems on the cache of required checks, at one repository and branch.
use github_webhook_exporter.Prelude.{
  ◌-◌, ◌/◌, ◌≡◌, refl, none, some, [], ◌∷◌, lit, text_lt, ltb, ok, arith, if◌then◌else◌,
}
use github_webhook_exporter.Fixtures.{
  clock, clock-TimeFormatLaws, connected, main_branch, two_checks,
}
use github_webhook_exporter.Domain.Time.{nanos_per_milli}
use github_webhook_exporter.Domain.Repository.{RepositoryId}
use github_webhook_exporter.Telemetry.Workflow.Names.{is_control}
use github_webhook_exporter.Storage.Tables.{repository_exists}
use github_webhook_exporter.Storage.RequiredCheck.{
  upsert, get_fresh, encode_check_names, into_checks,
}
use github_webhook_exporter.Storage.RequiredCheck.Codec.{
  IsCheckSet, into_checks-encode_check_names, into_checks-IsCheckSet,
}
use github_webhook_exporter.Storage.RequiredCheck.Fresh.{get_fresh-upsert, IsTimed, Serves}

two_checks-IsCheckSet : IsCheckSet two_checks
unfolding text_lt is_control
two_checks-IsCheckSet = record {
  ascending = (refl, (refl, tt));
  few = omega arith;
  all_names = (
    record { nonempty = omega arith; bounded = omega arith; printable = refl },
    (record { nonempty = omega arith; bounded = omega arith; printable = refl }, tt),
  );
}

into_checks-encode_check_names_example : into_checks (encode_check_names two_checks) ≡ two_checks
into_checks-encode_check_names_example =
    into_checks-encode_check_names two_checks two_checks-IsCheckSet

into_checks-IsCheckSet_example : IsCheckSet (into_checks (lit "test"))
into_checks-IsCheckSet_example = into_checks-IsCheckSet (lit "test")

abbrev first : RepositoryId
first = record { id = 1 }

first-Serves : Serves first connected
unfolding repository_exists
first-Serves = (refl, refl)

-- Written at 20 ms, and read at 50 ms with a time-to-live of 40 ms.
timed : IsTimed clock clock-TimeFormatLaws 40000000 20000000 50000000 (20 ∷ []) (10 ∷ [])
unfolding clock-TimeFormatLaws
timed = record {
  written_text = refl;
  cutoff_text = refl;
  written_era = omega arith;
  cutoff_era = omega arith;
  short = omega arith;
}

get_fresh-upsert_example :
    ((upsert (20 ∷ []) first main_branch two_checks connected).0 ≡ ok tt)
    × ((get_fresh clock 40000000 first main_branch 50000000
          (upsert (20 ∷ []) first main_branch two_checks connected).1).0
        ≡ ok (
            if ltb (20000000 / nanos_per_milli) ((50000000 - 40000000) / nanos_per_milli)
            then none
            else some two_checks))
get_fresh-upsert_example =
    get_fresh-upsert clock clock-TimeFormatLaws 40000000 20000000 50000000 (20 ∷ []) (10 ∷ []) first
      main_branch two_checks connected timed first-Serves (omega arith) (omega arith)
      two_checks-IsCheckSet
