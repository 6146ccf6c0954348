-- ===== src/Storage/Repository/Statements.antt =====
-- The SQL statements of src/storage/repository_store.rs, on the tables of migrations/*.sql.
use github_webhook_exporter.Prelude.{
  ℕ, ◌+◌, ◌==◌, ◌&&◌, true, not, Option, none, some, List, [], ◌∷◌, ◌++◌, any, find, keep, length,
  Text, lit, text_eq, ltb, Result, ok, err, if◌then◌else◌,
}
use github_webhook_exporter.Storage.Sql.{SqlxError, database, other}
use github_webhook_exporter.Storage.Tables.{
  RepositoryRow, AttemptRow, RequiredCheckRow, WorkflowRunRow, WorkflowJobLinkRow, Database,
}

-- `SELECT … WHERE id = ?`, with `fetch_optional`.
unfoldable pub select_by_id : ℕ → Database → Result SqlxError (Option RepositoryRow × Database)
select_by_id id d = ok (find (λ (r : RepositoryRow). r.id == id) d.repositories, d)

-- `SELECT … WHERE full_name = ? AND enabled = 1`, with `fetch_optional`.
unfoldable pub select_enabled : Text → Database → Result SqlxError (Option RepositoryRow × Database)
select_enabled name d =
    ok (find (λ (r : RepositoryRow). text_eq r.full_name name && r.enabled == 1) d.repositories, d)

-- `SELECT … ORDER BY id`: a table is kept in the order of its identifiers.
unfoldable pub select_all : Database → Result SqlxError (List RepositoryRow × Database)
select_all d = ok (d.repositories, d)

-- `SELECT COUNT(*)`.
unfoldable pub count_repositories : Database → Result SqlxError (ℕ × Database)
count_repositories d = ok (length d.repositories, d)

-- SQLite's extended result code for a failed UNIQUE constraint.
abbrev unique_failed : SqlxError
unique_failed = database (some (lit "2067")) true

-- The rowid that SQLite gives to a new row.
unfoldable pub next_repository_id : List RepositoryRow → ℕ
next_repository_id [] = 1
next_repository_id (r ∷ rs) =
    let rest = next_repository_id rs in if ltb r.id rest then rest else r.id + 1

abbrev pub inserted_row : Text → RepositoryRow → List RepositoryRow → RepositoryRow
inserted_row now r rows = record r {
  id = next_repository_id rows;
  created_at = now;
  updated_at = now;
}

-- `INSERT … RETURNING`: the values of `r`, a new identifier, and the clock.
unfoldable pub insert_repository :
    Text → RepositoryRow → Database → Result SqlxError (RepositoryRow × Database)
unfolding next_repository_id
insert_repository now r d =
    let row = inserted_row now r d.repositories in
    if any (λ (o : RepositoryRow). text_eq o.full_name r.full_name) d.repositories
    then err unique_failed
    else ok (row, record d { repositories = d.repositories ++ row ∷ [] })

-- The row that an UPDATE leaves in the place of `o`.
abbrev pub updated_row : Text → RepositoryRow → RepositoryRow → RepositoryRow
updated_row now r o = record r { id = o.id; created_at = o.created_at; updated_at = now }

unfoldable pub update_rows : Text → ℕ → RepositoryRow → List RepositoryRow → List RepositoryRow
update_rows now id r [] = []
update_rows now id r (o ∷ rows) =
    (if o.id == id then updated_row now r o else o) ∷ update_rows now id r rows

abbrev row_updated :
    Text
    → RepositoryRow
    → Database
    → Database
    → Option RepositoryRow
    → Result SqlxError (RepositoryRow × Database)
row_updated now r d e none = err other
row_updated now r d e (some o) = ok (updated_row now r o, e)

-- `UPDATE … WHERE id = ? RETURNING`, with `fetch_one`.
unfoldable pub update_repository :
    Text → ℕ → RepositoryRow → Database → Result SqlxError (RepositoryRow × Database)
unfolding update_rows
update_repository now id r d =
    if any (λ (o : RepositoryRow). not (o.id == id) && text_eq o.full_name r.full_name)
      d.repositories
    then err unique_failed
    else row_updated now r d (record d { repositories = update_rows now id r d.repositories })
        (find (λ (o : RepositoryRow). o.id == id) d.repositories)

-- `DELETE … WHERE id = ?`, which cascades to the rows that name the repository.
unfoldable pub delete_repository : ℕ → Database → Result SqlxError (ℕ × Database)
delete_repository id d = ok (
  length (keep (λ (r : RepositoryRow). r.id == id) d.repositories),
  record d {
    repositories = keep (λ (r : RepositoryRow). not (r.id == id)) d.repositories;
    merge_queue_attempts =
        keep (λ (a : AttemptRow). not (a.repository_id == id)) d.merge_queue_attempts;
    required_check_contexts =
        keep (λ (c : RequiredCheckRow). not (c.repository_id == id)) d.required_check_contexts;
    workflow_run_contexts =
        keep (λ (r : WorkflowRunRow). not (r.repository_id == id)) d.workflow_run_contexts;
    workflow_job_links =
        keep (λ (l : WorkflowJobLinkRow). not (l.repository_id == id)) d.workflow_job_links;
  },
)
