-- ===== src/Storage/RequiredCheck.antt =====
-- src/storage/required_check_store.rs: the cache of required status checks.
pub mod Codec
pub mod Fresh
mod Tests
use github_webhook_exporter.Prelude.{
  ℕ, ◌*◌, ◌==◌, ◌&&◌, ◌^◌, Bool, not, List, [], ◌∷◌, ◌++◌, map, take, filter_map, find, Text,
  text_eq, text_lt, split, Option, none, some, ltb, Result, ok, err, ok_or, if◌then◌else◌,
}
use github_webhook_exporter.Prelude.Options.{map_option}
use github_webhook_exporter.Domain.Time.{TimeFormat, checked_sub}
use github_webhook_exporter.Domain.Repository.{RepositoryId}
use github_webhook_exporter.Telemetry.Workflow.Names.{
  DisplayName, sanitize_display_name, WorkflowBranch,
}
use github_webhook_exporter.Telemetry.Workflow.Required.{
  RequiredChecks, new_checks, max_required_check_count,
}
use github_webhook_exporter.Storage.Sql.{
  SqlxError, sqlite_is_busy_or_locked, Sql, on_pool, lift, ◌>>=◌,
}
use github_webhook_exporter.Storage.Tables.{
  RequiredCheckRow, Database, check_required, repository_exists,
}
use github_webhook_exporter.Storage.Prune.{Columns, prune, prune_batch_size}
use github_webhook_exporter.Storage.Upsert

pub data RequiredCheckStoreError : Type 0 where
  unavailable internal : RequiredCheckStoreError

unfoldable pub map_sqlx_error : SqlxError → RequiredCheckStoreError
map_sqlx_error e = if sqlite_is_busy_or_locked e then unavailable else internal

abbrev pub check_name_separator : ℕ
check_name_separator = 10

-- `join` of the names' texts.
unfoldable pub join : ℕ → List DisplayName → Text
join separator [] = []
join separator (name ∷ []) = name.text
join separator (name ∷ next ∷ names) = name.text ++ separator ∷ join separator (next ∷ names)

unfoldable pub encode_check_names : RequiredChecks → Text
unfolding join
encode_check_names checks = join check_name_separator checks.names

unfoldable pub into_checks : Text → RequiredChecks
unfolding split sanitize_display_name new_checks
into_checks check_names =
    let (first, rest) = split check_name_separator check_names in
    new_checks (take max_required_check_count (filter_map sanitize_display_name (first ∷ rest)))

unfoldable pub is_branch_row : ℕ → Text → RequiredCheckRow → Bool
unfolding text_eq
is_branch_row repository branch r = r.repository_id == repository && text_eq r.target_branch branch

abbrev pub branch_row : ℕ → Text → Text → Text → ℕ → RequiredCheckRow
branch_row repository branch names now rowid = record {
  rowid = rowid;
  repository_id = repository;
  target_branch = branch;
  check_names = names;
  updated_at = now;
}

abbrev stored :
    Database → Result SqlxError (List RequiredCheckRow) → Result SqlxError (Unit {0} × Database)
stored d (ok rows) = ok (tt, record d { required_check_contexts = rows })
stored d (err e) = err e

-- `now` is SQLite's clock.
unfoldable pub upsert_checks :
    Text → ℕ → Text → Text → Database → Result SqlxError (Unit {0} × Database)
unfolding Upsert.upsert check_required repository_exists is_branch_row
upsert_checks now repository branch names d = stored d (
    Upsert.upsert (λ (r : RequiredCheckRow). r.rowid)
      (check_required (branch_row repository branch names now 0))
      (repository_exists repository d.repositories) (is_branch_row repository branch)
      (branch_row repository branch names now) d.required_check_contexts)

unfoldable pub upsert :
    Text
    → RepositoryId
    → WorkflowBranch
    → RequiredChecks
    → Sql Database RequiredCheckStoreError (Unit {0})
unfolding on_pool upsert_checks map_sqlx_error encode_check_names
upsert now repository_id branch checks =
    on_pool map_sqlx_error
      (upsert_checks now repository_id.id branch.text (encode_check_names checks))

-- `SELECT check_names … AND updated_at >= ?`.
unfoldable pub select_fresh : ℕ → Text → Text → Database → Result SqlxError (Option Text × Database)
unfolding is_branch_row text_lt
select_fresh repository branch cutoff d = ok (
  map_option (λ (r : RequiredCheckRow). r.check_names)
      (find
        (λ (r : RequiredCheckRow).
          is_branch_row repository branch r && not (text_lt r.updated_at cutoff))
        d.required_check_contexts),
  d,
)

-- The instant before which an entry is stale. `time::Duration::try_from` takes durations below
-- 2^63 seconds.
unfoldable pub freshness_cutoff : TimeFormat → ℕ → ℕ → Result RequiredCheckStoreError Text
freshness_cutoff f time_to_live now =
    if ltb time_to_live (2 ^ 63 * 1000000000)
    then (elim (checked_sub now time_to_live) [
      | none ↦ err internal
      | some cutoff ↦ ok_or (f.format_millis cutoff) internal
    ])
    else err internal

unfoldable pub get_fresh :
    TimeFormat
    → ℕ
    → RepositoryId
    → WorkflowBranch
    → ℕ
    → Sql Database RequiredCheckStoreError (Option RequiredChecks)
unfolding freshness_cutoff on_pool select_fresh map_sqlx_error into_checks
get_fresh f time_to_live repository_id branch now = do
  cutoff ← lift (freshness_cutoff f time_to_live now)
  row ← on_pool map_sqlx_error (select_fresh repository_id.id branch.text cutoff)
  lift (ok (map_option into_checks row))

abbrev pub required_columns : Columns RequiredCheckRow
required_columns = record { id = λ r. r.rowid; stamp = λ r. some r.updated_at }

unfoldable pub prune_checks : Text → Database → Result SqlxError (ℕ × Database)
unfolding prune
prune_checks cutoff d =
    let (deleted, rows) =
      prune required_columns prune_batch_size cutoff d.required_check_contexts in
    ok (deleted, record d { required_check_contexts = rows })

unfoldable pub prune_batch : TimeFormat → ℕ → Sql Database RequiredCheckStoreError ℕ
unfolding on_pool prune_checks map_sqlx_error
prune_batch f cutoff = do
  cutoff ← lift (ok_or (f.format_millis cutoff) internal)
  on_pool map_sqlx_error (prune_checks cutoff)
