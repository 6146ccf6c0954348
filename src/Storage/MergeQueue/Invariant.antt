-- ===== src/Storage/MergeQueue/Invariant.antt =====
-- The well-formedness of the table `merge_queue_attempts` under src/storage/merge_queue_store.rs.
use github_webhook_exporter.Prelude.{
  ℕ, Bool-cases, inl, inr, ◌≤◌, ◌≡◌, refl, ap, Bool, true, false, Option, List, [], ◌∷◌, ◌++◌, map,
  arith, any, all, keep, length, Text, ok, Distinct, mem, mem-append, keep-append, all-append,
  keep-eq_nil, all-keep, length-keep-keep-le, length-append, Distinct-map-keep,
}
use github_webhook_exporter.Domain.Time.{TimeFormat}
use github_webhook_exporter.Domain.MergeQueue.{
  PullRequestNumber, QueueTimestamp, QueueCompletion, from_datetime,
}
use github_webhook_exporter.Storage.Sql.{Session, begin, commit, in_transaction, on_pool}
use github_webhook_exporter.Storage.Sql.Keeps.{on_pool-keeps, lift_option-keeps}
use github_webhook_exporter.Storage.Tables.{
  AttemptRow, Database, is_null, check_attempt, repository_exists, next_rowid,
}
use github_webhook_exporter.Storage.Prune.{prune, delete_ids}
use github_webhook_exporter.Storage.MergeQueue.{
  enqueue, complete, classify, prune_completed_batch, is_active_of, insert_attempt, insert_pending,
  pending_row, completed_row, update_where, completed_exists, map_sqlx_error, internal,
  complete_active, prune_attempts,
}

abbrev active_count : ℕ → ℕ → List AttemptRow → ℕ
active_count repository number rows = length (keep (is_active_of repository number) rows)

pub record IsWellFormed (d : Database) : Type 0 where
  -- The unique index `one_active_merge_queue_attempt`.
  pub one_active :
      (repository number : ℕ) → active_count repository number d.merge_queue_attempts ≤ 1
  pub checked : all check_attempt d.merge_queue_attempts ≡ true
  pub primary_key : Distinct (map (λ r. r.id) d.merge_queue_attempts)
  pub referenced :
      all (λ r. repository_exists r.repository_id d.repositories) d.merge_queue_attempts ≡ true

-- A new row.

mem-above :
    (k : ℕ) (rows : List AttemptRow) → next_rowid rows ≤ k → mem k (map (λ r. r.id) rows) ≡ false
unfolding next_rowid
mem-above k [] h = refl
mem-above k (r ∷ rows) h = ground (arith, mem-above k rows)

Distinct-append : (k : ℕ) (ks : List ℕ) → mem k ks ≡ false → Distinct ks → Distinct (ks ++ k ∷ [])
Distinct-append k [] h d = (refl, tt)
Distinct-append k (j ∷ ks) h d = ground (arith, mem-append j ks (k ∷ []), Distinct-append k ks)

map-id-append :
    (rows : List AttemptRow) (r : AttemptRow)
    → map (λ (x : AttemptRow). x.id) (rows ++ r ∷ [])
      ≡ map (λ (x : AttemptRow). x.id) rows ++ r.id ∷ []
map-id-append [] r = refl
map-id-append (x ∷ rows) r = ap (◌∷◌ x.id) (map-id-append rows r)

active_count-append :
    (repository number : ℕ) (rows : List AttemptRow) (r : AttemptRow)
    → any (is_active_of r.repository_id r.pull_request_number) rows ≡ false
    → active_count repository number rows ≤ 1
    → active_count repository number (rows ++ r ∷ []) ≤ 1
unfolding is_active_of
active_count-append repository number rows r h one = ground (
  arith,
  keep-append (is_active_of repository number) rows (r ∷ []),
  length-append (keep (is_active_of repository number) rows)
      (keep (is_active_of repository number) (r ∷ [])),
  keep-eq_nil (is_active_of r.repository_id r.pull_request_number) rows h,
)

insert_attempt-IsWellFormed :
    (r : AttemptRow) (d e : Database) (n : ℕ)
    → next_rowid d.merge_queue_attempts ≤ r.id
    → IsWellFormed d
    → insert_attempt r d ≡ ok (n, e)
    → IsWellFormed e
unfolding insert_attempt
insert_attempt-IsWellFormed r d e n above w h = record {
  one_active =
      λ k p. ground (arith, active_count-append k p d.merge_queue_attempts r, w.one_active k p);
  checked = ground (arith, w.checked, all-append check_attempt d.merge_queue_attempts (r ∷ []));
  primary_key = ground (
    arith,
    w.primary_key,
    map-id-append d.merge_queue_attempts r,
    mem-above r.id d.merge_queue_attempts above,
    Distinct-append r.id (map (λ (x : AttemptRow). x.id) d.merge_queue_attempts),
  );
  referenced = ground (
    arith,
    w.referenced,
    all-append (λ (x : AttemptRow). repository_exists x.repository_id d.repositories)
        d.merge_queue_attempts (r ∷ []),
  );
}

insert_pending-IsWellFormed :
    (repository : ℕ) (number : PullRequestNumber) (t : QueueTimestamp) (d e : Database) (n : ℕ)
    → IsWellFormed d
    → insert_pending repository number t d ≡ ok (n, e)
    → IsWellFormed e
unfolding insert_pending
insert_pending-IsWellFormed repository number t d e n w h =
    insert_attempt-IsWellFormed
      (pending_row (next_rowid d.merge_queue_attempts) repository number t) d e n (omega arith) w h

-- An updated row.

active_count-update :
    (f : AttemptRow → AttemptRow) (p : AttemptRow → Bool) (k n : ℕ) (rows : List AttemptRow)
    → ((r : AttemptRow) → is_null (f r).completed_at ≡ false)
    → active_count k n (update_where p f rows) ≤ active_count k n rows
unfolding is_active_of update_where
active_count-update f p k n [] h = omega arith
active_count-update f p k n (r ∷ rows) h = ground (arith, h r, active_count-update f p k n rows h)

all-update :
    (q p : AttemptRow → Bool) (f : AttemptRow → AttemptRow) (rows : List AttemptRow)
    → all q rows ≡ true
    → all q (map f (keep p rows)) ≡ true
    → all q (update_where p f rows) ≡ true
unfolding update_where
all-update q p f [] h k = refl
all-update q p f (r ∷ rows) h k = ground (arith, all-update q p f rows)

all-update_same :
    (q p : AttemptRow → Bool) (f : AttemptRow → AttemptRow) (rows : List AttemptRow)
    → ((r : AttemptRow) → q (f r) ≡ q r)
    → all q rows ≡ true
    → all q (update_where p f rows) ≡ true
unfolding update_where
all-update_same q p f [] same h = refl
all-update_same q p f (r ∷ rows) same h = ground (arith, same r, all-update_same q p f rows same)

map-id-update :
    (p : AttemptRow → Bool) (c : QueueCompletion) (rows : List AttemptRow)
    → map (λ (x : AttemptRow). x.id) (update_where p (completed_row c) rows)
      ≡ map (λ (x : AttemptRow). x.id) rows
unfolding update_where
map-id-update p c [] = refl
map-id-update p c (r ∷ rows) = elim (Bool-cases (p r)) [
  | inl e ↦ rw e (ap (◌∷◌ r.id) (map-id-update p c rows))
  | inr e ↦ rw e (ap (◌∷◌ r.id) (map-id-update p c rows))
]

complete_active-IsWellFormed :
    (repository : ℕ) (number : PullRequestNumber) (c : QueueCompletion) (d e : Database)
    (o : Option Text)
    → IsWellFormed d
    → complete_active repository number c d ≡ ok (o, e)
    → IsWellFormed e
unfolding complete_active
complete_active-IsWellFormed repository number c d e o w h = record {
  one_active = λ k p.
      ground (
        arith,
        w.one_active k p,
        active_count-update (completed_row c) active k p rows (λ r. refl),
      );
  checked = ground (arith, w.checked, all-update check_attempt active (completed_row c) rows);
  primary_key = ground (arith, w.primary_key, map-id-update active c rows);
  referenced = ground (
    arith,
    w.referenced,
    all-update_same (λ (x : AttemptRow). repository_exists x.repository_id d.repositories) active
        (completed_row c) rows (λ r. refl),
  );
}
  where
    rows : List AttemptRow
    rows = d.merge_queue_attempts

    active : AttemptRow → Bool
    active = is_active_of repository number.number

-- Deleted rows.

prune_attempts-IsWellFormed :
    (cutoff : Text) (d e : Database) (n : ℕ)
    → IsWellFormed d
    → prune_attempts cutoff d ≡ ok (n, e)
    → IsWellFormed e
unfolding prune_attempts prune delete_ids
prune_attempts-IsWellFormed cutoff d e n w h = record {
  one_active = λ k p. grind (arith, w.one_active k p, length-keep-keep-le);
  checked = grind (arith, w.checked, all-keep);
  primary_key = grind (arith, w.primary_key, Distinct-map-keep);
  referenced = grind (arith, w.referenced, all-keep);
}

-- The operations, whatever the calls meet.

module _ (s : Session Database) (w : IsWellFormed s.committed) where
  -- If the committed attempts are well formed, they are after an enqueue, served or failed: at most one is
  -- active for a pull request, the CHECK constraints hold, identifiers are distinct and each row's
  -- repository exists.
  pub enqueue-IsWellFormed :
      (repository : ℕ) (number : PullRequestNumber) (t : QueueTimestamp)
      → IsWellFormed (enqueue repository number t s).1.committed
  unfolding enqueue begin commit in_transaction
  enqueue-IsWellFormed repository number t = grind (arith, insert_pending-IsWellFormed)

  -- If the committed attempts are well formed, they are after a completion, served or failed.
  pub complete-IsWellFormed :
      (f : TimeFormat) (repository : ℕ) (number : PullRequestNumber) (c : QueueCompletion)
      → IsWellFormed (complete f repository number c s).1.committed
  unfolding complete classify begin commit in_transaction completed_exists
  complete-IsWellFormed f repository number c = grind (arith, complete_active-IsWellFormed)

  -- If the committed attempts are well formed, they are after a pruning batch, served or failed.
  pub prune-IsWellFormed :
      (f : TimeFormat) (cutoff : ℕ) → IsWellFormed (prune_completed_batch f cutoff s).1.committed
  unfolding prune_completed_batch map_sqlx_error
  prune-IsWellFormed f cutoff =
      lift_option-keeps IsWellFormed s (from_datetime f cutoff) internal
        (λ c. on_pool map_sqlx_error (prune_attempts c.canonical)) w
        λ c.
          on_pool-keeps IsWellFormed map_sqlx_error (prune_attempts c.canonical) s w
            λ d e n. prune_attempts-IsWellFormed c.canonical d e n
