-- ===== src/Storage/RequiredCheck/Fresh.antt =====
-- Writing and reading the cache of src/storage/required_check_store.rs.
use github_webhook_exporter.Prelude.{
  ℕ, ◌+◌, ◌-◌, ◌/◌, ltb, lt→ltb, ltb→lt, ◌*◌, ◌^◌, ◌≤◌, ◌<◌, ◌↔◌, ◌≡◌, refl, sym, ◌&&◌, ◌∙◌, Bool,
  Bool-cases, inl, inr, true, false, not, List, [], find, length, Text, text_eq_refl, text_lt, none,
  some, ok, arith, if◌then◌else◌,
}
use github_webhook_exporter.Prelude.Options.{map_option}
use github_webhook_exporter.Domain.Time.{TimeFormat, TimeFormatLaws, nanos_per_milli}
use github_webhook_exporter.Domain.Repository.{RepositoryId}
use github_webhook_exporter.Telemetry.Workflow.Names.{WorkflowBranch}
use github_webhook_exporter.Telemetry.Workflow.Required.{RequiredChecks}
use github_webhook_exporter.Storage.Sql.{Session, on_pool}
use github_webhook_exporter.Storage.Tables.{
  RequiredCheckRow, Database, check_required, repository_exists,
}
use github_webhook_exporter.Storage.Upsert
use github_webhook_exporter.Storage.RequiredCheck.{
  is_branch_row, branch_row, upsert_checks, upsert, encode_check_names, into_checks, select_fresh,
  freshness_cutoff, get_fresh,
}
use github_webhook_exporter.Storage.RequiredCheck.Codec.{
  IsCheckSet, length-encode_check_names, into_checks-encode_check_names,
}

-- The repository's row is there, and SQLite serves every call.
abbrev pub Serves : RepositoryId → Session Database → Type 0
Serves repository_id s =
    (s.faults ≡ []) × (repository_exists repository_id.id s.committed.repositories ≡ true)

checked_row :
    (repository : ℕ) (branch names now : Text)
    → 1 ≤ length branch
    → length branch ≤ 255
    → length names ≤ 16384
    → check_required (branch_row repository branch names now 0) ≡ true
unfolding check_required
checked_row repository branch names now h k l = ground arith

-- The statement succeeds, and its effect.
pub upsert_runs :
    (repository_id : RepositoryId) (branch : WorkflowBranch) (checks : RequiredChecks) (now : Text)
    (s : Session Database)
    → Serves repository_id s
    → 1 ≤ length branch.text
    → length branch.text ≤ 255
    → IsCheckSet checks
    → ((upsert now repository_id branch checks s).0 ≡ ok tt)
      × ((upsert now repository_id branch checks s).1.faults ≡ [])
      × (Upsert.upsert
            (λ (r : RequiredCheckRow). r.rowid)
            true
            true
            (is_branch_row repository_id.id branch.text)
            (branch_row repository_id.id branch.text (encode_check_names checks) now)
            s.committed.required_check_contexts
          ≡ ok (upsert now repository_id branch checks s).1.committed.required_check_contexts)
unfolding upsert on_pool upsert_checks
upsert_runs repository_id branch checks now s serves h k set =
    let checked =
      checked_row repository_id.id branch.text (encode_check_names checks) now h k
        (length-encode_check_names checks set).1 in
    let (rows, e) =
      Upsert.upsert_served (λ (r : RequiredCheckRow). r.rowid)
        (is_branch_row repository_id.id branch.text)
        (branch_row repository_id.id branch.text (encode_check_names checks) now)
        s.committed.required_check_contexts in
    rw (serves.0, checked, serves.1, e) (refl, refl, refl)

abbrev is_fresh_row : ℕ → Text → Text → RequiredCheckRow → Bool
is_fresh_row repository branch cutoff r =
    is_branch_row repository branch r && not (text_lt r.updated_at cutoff)

module _ (repository : ℕ) (branch names now cutoff : Text) where
  found_fresh :
      (rows rows' : List RequiredCheckRow)
      → text_lt now cutoff ≡ false
      → Upsert.upsert
          (λ (r : RequiredCheckRow). r.rowid)
          true
          true
          (is_branch_row repository branch)
          (branch_row repository branch names now)
          rows
        ≡ ok rows'
      → map_option
          (λ (r : RequiredCheckRow). r.check_names)
          (find (is_fresh_row repository branch cutoff) rows')
        ≡ some names
  unfolding is_branch_row
  found_fresh rows rows' h e =
      let (k, found) =
        Upsert.find-upsert (λ (r : RequiredCheckRow). r.rowid) (is_branch_row repository branch)
          (branch_row repository branch names now) (is_fresh_row repository branch cutoff)
          (λ r out. ground arith) true true rows rows' (λ k. ground (arith, text_eq_refl branch, h))
          e in
      rw found refl

  stale_hidden :
      (rows rows' : List RequiredCheckRow)
      → text_lt now cutoff ≡ true
      → Upsert.upsert
          (λ (r : RequiredCheckRow). r.rowid)
          true
          true
          (is_branch_row repository branch)
          (branch_row repository branch names now)
          rows
        ≡ ok rows'
      → find (is_fresh_row repository branch cutoff) rows' ≡ none
  unfolding is_branch_row
  stale_hidden rows rows' h e =
      Upsert.find-upsert-none (λ (r : RequiredCheckRow). r.rowid) (is_branch_row repository branch)
        (branch_row repository branch names now) (is_fresh_row repository branch cutoff)
        (λ r out. ground arith) true true rows rows' (λ k. ground (arith, h)) e

get_fresh-served :
    (f : TimeFormat) (time_to_live later : ℕ) (repository_id : RepositoryId)
    (branch : WorkflowBranch) (s : Session Database) (cutoff : Text)
    → s.faults ≡ []
    → freshness_cutoff f time_to_live later ≡ ok cutoff
    → (get_fresh f time_to_live repository_id branch later s).0
      ≡ ok (
          map_option into_checks (
            map_option
              (λ (r : RequiredCheckRow). r.check_names)
              (find
                (is_fresh_row repository_id.id branch.text cutoff)
                s.committed.required_check_contexts)))
unfolding get_fresh on_pool select_fresh
get_fresh-served f time_to_live later repository_id branch s cutoff h e = rw (e, h) refl

decided : (b : Bool) (x y : ℕ) → (b ≡ true) ↔ (x < y) → b ≡ ltb x y
decided b x y h = elim (Bool-cases (ltb x y)) [
  | inl l ↦ h.1 (ltb→lt x y l) ∙ sym l
  | inr l ↦ elim (Bool-cases b) [ inl c ↦ absurd (ground (arith, h.0 c)) | inr c ↦ c ∙ sym l ]
]

module _ (f : TimeFormat) (laws : TimeFormatLaws f) (time_to_live written later : ℕ)
    (now cutoff : Text) where
  -- The clock of SQLite shows the instant of the write, and the cutoff can be shown.
  pub record IsTimed : Type 0 where
    pub written_text : f.format_millis written ≡ some now
    pub cutoff_text : f.format_millis (later - time_to_live) ≡ some cutoff
    pub written_era : laws.year_zero ≤ written
    pub cutoff_era : laws.year_zero + time_to_live ≤ later
    pub short : time_to_live < 2 ^ 63 * 1000000000

  cutoff_of : IsTimed → freshness_cutoff f time_to_live later ≡ ok cutoff
  unfolding freshness_cutoff
  cutoff_of t =
      let fits : ltb time_to_live (2 ^ 63 * 1000000000) ≡ true = lt→ltb _ _ t.short in
      let started : ltb later time_to_live ≡ false = ground (arith, t.cutoff_era) in
      rw (fits, started, t.cutoff_text) refl

  -- A set of required checks that is stored for a sanitized branch of a stored repository is read
  -- back unchanged, while the millisecond of the write is not before that of the reading less the
  -- time-to-live, and not at all afterwards. SQLite serves the two calls, times are shown as texts
  -- in their order, and the time-to-live is below 2^63 seconds.
  pub get_fresh-upsert :
      (repository_id : RepositoryId) (branch : WorkflowBranch) (checks : RequiredChecks)
      (s : Session Database)
      → IsTimed
      → Serves repository_id s
      → 1 ≤ length branch.text
      → length branch.text ≤ 255
      → IsCheckSet checks
      → ((upsert now repository_id branch checks s).0 ≡ ok tt)
        × ((get_fresh f time_to_live repository_id branch later
              (upsert now repository_id branch checks s).1).0
            ≡ ok (
                if ltb (written / nanos_per_milli) ((later - time_to_live) / nanos_per_milli)
                then none
                else some checks))
  get_fresh-upsert repository_id branch checks s t serves h k set =
      let (done, quiet, rows) = upsert_runs repository_id branch checks now s serves h k set in
      let read =
        get_fresh-served f time_to_live later repository_id branch
          (upsert now repository_id branch checks s).1 cutoff quiet (cutoff_of t) in
      let order =
        laws.format_ordered written (later - time_to_live) now cutoff t.written_era
          (omega (arith, t.cutoff_era)) t.written_text t.cutoff_text in
      (
        done,
        elim (Bool-cases (text_lt now cutoff)) [
          | inl old ↦
              let late = lt→ltb _ _ (order.0 old) in
              rw (late, read, stale_hidden repository_id.id branch.text _ now cutoff _ _ old rows)
                refl
          | inr young ↦
              let early : ltb (written / nanos_per_milli) ((later - time_to_live) / nanos_per_milli)
                  ≡ false =
                sym (decided _ _ _ order) ∙ young in
              rw
                (
                  early,
                  read,
                  found_fresh repository_id.id branch.text _ now cutoff _ _ young rows,
                  into_checks-encode_check_names checks set,
                )
                refl
        ],
      )
