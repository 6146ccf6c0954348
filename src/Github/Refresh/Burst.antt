-- ===== src/Github/Refresh/Burst.antt =====
-- What the refresher of src/github/refresh.rs asks of GitHub, and what it keeps.
use github_webhook_exporter.Prelude.{
  ℕ, ◌-◌, ◌/◌, ◌≤◌, ◌≡◌, refl, inl, inr, false, List, [], ◌∷◌, All, length, Text, none, ltb, ok,
  Result-cases, arith,
}
use github_webhook_exporter.Domain.Time.{TimeFormat, TimeFormatLaws, nanos_per_milli}
use github_webhook_exporter.Domain.Repository.{RepositoryId}
use github_webhook_exporter.Telemetry.Workflow.Names.{WorkflowBranch}
use github_webhook_exporter.Telemetry.Workflow.Required.{RequiredChecks}
use github_webhook_exporter.Storage.Sql.{Session, on_pool}
use github_webhook_exporter.Storage.Tables.{Database}
use github_webhook_exporter.Storage.RequiredCheck.{
  upsert, get_fresh, select_fresh, freshness_cutoff,
}
use github_webhook_exporter.Storage.RequiredCheck.Codec.{IsCheckSet}
use github_webhook_exporter.Storage.RequiredCheck.Fresh.{
  Serves, IsTimed, get_fresh-upsert, upsert_runs,
}
use github_webhook_exporter.Github.Refresh.{
  Turn, RequiredCheckSource, RequiredCheckRefresher, answered, refresh, run,
}

-- A read of a session that serves every call leaves the session as it is.
get_fresh_session :
    (f : TimeFormat) (time_to_live now : ℕ) (id : RepositoryId) (branch : WorkflowBranch)
    (s : Session Database)
    → s.faults ≡ []
    → (get_fresh f time_to_live id branch now s).1 ≡ s
unfolding get_fresh on_pool select_fresh
get_fresh_session f time_to_live now id branch s quiet =
    elim (Result-cases (freshness_cutoff f time_to_live now)) [
      | inl (cutoff, e) ↦ rw (e, quiet) refl
      | inr (x, e) ↦ rw e refl
    ]

-- A turn that asks for the same branch later, while what was written at an instant is fresh.
abbrev pub Repeats : (f : TimeFormat) → TimeFormatLaws f → ℕ → Turn → ℕ → Turn → Type 0
Repeats f laws time_to_live first written later =
    (later.cancelled ≡ false)
    × (later.asked.repository_id ≡ first.asked.repository_id)
    × (later.asked.branch ≡ first.asked.branch)
    × ((cutoff : Text) × IsTimed f laws time_to_live written later.now first.written cutoff)
    × ((later.now - time_to_live) / nanos_per_milli ≤ written / nanos_per_milli)

module _ {S : Type 0} (f : TimeFormat) (laws : TimeFormatLaws f) (time_to_live : ℕ)
    (client : RequiredCheckSource S) (first : Turn) (r : RequiredCheckRefresher S)
    (checks : RequiredChecks) where
  -- The refresher after the one read: the cache holds the checks of its answer.
  abbrev pub filled : RequiredCheckRefresher S
  filled = record {
    source =
        (client.required_checks r.source first.asked.repository_name first.asked.branch
          first.now).1;
    store = (upsert first.written first.asked.repository_id first.asked.branch checks r.store).1;
  }

  -- What the first turn finds: no fresh entry, an answer of GitHub, and SQLite.
  pub record Misses : Type 0 where
    pub goes_on : first.cancelled ≡ false
    pub serves : Serves first.asked.repository_id r.store
    pub branch_nonempty : 1 ≤ length first.asked.branch.text
    pub branch_bounded : length first.asked.branch.text ≤ 255
    pub missed :
        (get_fresh f time_to_live first.asked.repository_id first.asked.branch first.now r.store).0
        ≡ ok none
    pub answer :
        (client.required_checks r.source first.asked.repository_name first.asked.branch first.now).0
        ≡ ok checks
    pub set : IsCheckSet checks

  module _ (misses : Misses) where
    first-filled : (refresh f time_to_live client first r).1 ≡ filled
    unfolding refresh answered
    first-filled =
        rw
          (
            misses.missed,
            get_fresh_session f time_to_live first.now first.asked.repository_id first.asked.branch
                r.store misses.serves.0,
            misses.answer,
          )
          refl

    later-filled :
        (written : ℕ) (later : Turn)
        → Repeats f laws time_to_live first written later
        → (refresh f time_to_live client later filled).1 ≡ filled
    unfolding refresh
    later-filled written later (_, id, branch, (cutoff, timed), young) =
        let hit =
          (get_fresh-upsert f laws time_to_live written later.now first.written cutoff
            first.asked.repository_id first.asked.branch checks r.store timed misses.serves
            misses.branch_nonempty misses.branch_bounded misses.set).1 in
        let quiet =
          (upsert_runs first.asked.repository_id first.asked.branch checks first.written r.store
            misses.serves misses.branch_nonempty misses.branch_bounded misses.set).1 in
        let early : ltb (written / nanos_per_milli) ((later.now - time_to_live) / nanos_per_milli)
            ≡ false =
          ground (arith, young) in
        rw
          (
            id,
            branch,
            hit,
            early,
            get_fresh_session f time_to_live later.now first.asked.repository_id first.asked.branch
                filled.store quiet,
          )
          refl

    rest-filled :
        (written : ℕ) (rest : List Turn)
        → All (Repeats f laws time_to_live first written) rest
        → run f time_to_live client rest filled ≡ filled
    unfolding run
    rest-filled written [] h = refl
    rest-filled written (later ∷ rest) h =
        rw (h.0.0, later-filled written later h.0) (rest-filled written rest h.1)

    -- The first turn asks for a branch of 1 to 255 characters of a stored repository, finds no fresh
    -- entry, and GitHub answers with at most 100 sanitized names in ascending order; what it writes
    -- is stamped with a given instant. Each later turn asks for the same branch, at a time when an
    -- entry of that instant is fresh. No turn is cancelled, SQLite serves every call, the instants
    -- of the write and of the cutoffs can be shown, as texts in their order, and the time-to-live is
    -- below 2^63 seconds. Then all the turns
    -- together read GitHub once: the source is as its one answer left it, and the session with
    -- SQLite as the one write did.
    pub burst_reads_once :
        (written : ℕ) (rest : List Turn)
        → All (Repeats f laws time_to_live first written) rest
        → run f time_to_live client (first ∷ rest) r ≡ filled
    unfolding run
    burst_reads_once written rest h = rw (misses.goes_on, first-filled) (rest-filled written rest h)
