-- ===== src/Storage/Repository/Mutations.antt =====
-- Updates and deletions of src/storage/repository_store.rs, and tampered rows.
use github_webhook_exporter.Prelude.{
  ℕ, ◌≡◌, refl, ◌==◌, not, Bool, false, some, List, [], ◌∷◌, any, find, keep, Text, Result-cases,
  ok, err, arith, inl, inr,
}
use github_webhook_exporter.Domain.Repository.{RepositoryId, RepositoryMetadata, RepositoryMutation}
use github_webhook_exporter.Security.Secrets.{SecurityError, Crypto, decrypt}
use github_webhook_exporter.Storage.Sql.{Session, begin, commit, in_transaction}
use github_webhook_exporter.Storage.Tables.{RepositoryRow, AttemptRow, Database}
use github_webhook_exporter.Storage.Repository.Atomic.{update_fails_clean}
use github_webhook_exporter.Storage.Repository.{
  RepositoryStoreError, StoredRepository, cryptographic, update, delete, prepare, replacement,
  authenticate_row, decode_row,
}
use github_webhook_exporter.Storage.Repository.Statements.{select_by_id, delete_repository}

none_kept : {A : Type 0} (p : A → Bool) (xs : List A) → any p (keep (λ x. not (p x)) xs) ≡ false
none_kept p [] = refl
none_kept p (x ∷ xs) = ground (arith, none_kept p xs)

module _ (c : Crypto) (key : List ℕ) (id : RepositoryId) (s : Session Database) where
  -- A deletion that succeeds leaves no row of the repository and no merge-queue attempt of it.
  pub delete_removes :
      (i : RepositoryId)
      → (delete c key id s).0 ≡ ok i
      → (any (λ (r : RepositoryRow). r.id == id.id) (delete c key id s).1.committed.repositories
          ≡ false)
        × (any
              (λ (a : AttemptRow). a.repository_id == id.id)
              (delete c key id s).1.committed.merge_queue_attempts
            ≡ false)
  unfolding delete begin commit in_transaction select_by_id delete_repository
  delete_removes i h = ground (
    arith,
    none_kept (λ (r : RepositoryRow). r.id == id.id) s.committed.repositories,
    none_kept (λ (a : AttemptRow). a.repository_id == id.id) s.committed.merge_queue_attempts,
  )

  -- A row whose encrypted value does not decrypt is not deleted: the deletion is an error.
  pub delete_refuses_tampered :
      (r : RepositoryRow) (stored : StoredRepository) (e : SecurityError) (i : RepositoryId)
      → find (λ (r : RepositoryRow). r.id == id.id) s.committed.repositories ≡ some r
      → decode_row r ≡ ok stored
      → decrypt c key stored.full_name stored.encrypted ≡ err e
      → ¬ (delete c key id s).0 ≡ ok i
  unfolding delete begin commit in_transaction select_by_id authenticate_row
  delete_refuses_tampered r stored e i found d tampered h = ground arith

  replacement_refuses :
      (nonce : List ℕ) (mutation : RepositoryMutation) (r : RepositoryRow)
      (stored : StoredRepository) (e : SecurityError)
      → decode_row r ≡ ok stored
      → decrypt c key stored.full_name stored.encrypted ≡ err e
      → replacement c key nonce mutation r ≡ err (cryptographic e)
  unfolding replacement
  replacement_refuses nonce mutation r stored e d tampered = ground arith

  prepare_refuses :
      (nonce : List ℕ) (mutation : RepositoryMutation) (r : RepositoryRow) (e : SecurityError)
      → find (λ (r : RepositoryRow). r.id == id.id) s.committed.repositories ≡ some r
      → replacement c key nonce mutation r ≡ err (cryptographic e)
      → (w : RepositoryRow) → ¬ (prepare c key nonce id mutation s).0 ≡ ok w
  unfolding prepare begin in_transaction select_by_id
  prepare_refuses nonce mutation r e found refused w h = ground arith

  update_not_ok :
      (nonce : List ℕ) (now : Text) (mutation : RepositoryMutation) (r : RepositoryRow)
      (stored : StoredRepository) (e : SecurityError) (m : RepositoryMetadata)
      → find (λ (r : RepositoryRow). r.id == id.id) s.committed.repositories ≡ some r
      → decode_row r ≡ ok stored
      → decrypt c key stored.full_name stored.encrypted ≡ err e
      → ¬ (update c key nonce now id mutation s).0 ≡ ok m
  unfolding update
  update_not_ok nonce now mutation r stored e m found d tampered h =
      let refused = replacement_refuses nonce mutation r stored e d tampered in
      elim (Result-cases (prepare c key nonce id mutation s).0) [
        | inl (w, p) ↦ prepare_refuses nonce mutation r e found refused w p
        | inr (x, p) ↦ ground (arith, p)
      ]

  -- A row whose encrypted value does not decrypt is not updated, even where the mutation carries a
  -- new secret, and however SQLite answers: the update ends in an error, and the committed database
  -- is as before.
  pub update_refuses_tampered :
      (nonce : List ℕ) (now : Text) (mutation : RepositoryMutation) (r : RepositoryRow)
      (stored : StoredRepository) (e : SecurityError)
      → find (λ (r : RepositoryRow). r.id == id.id) s.committed.repositories ≡ some r
      → decode_row r ≡ ok stored
      → decrypt c key stored.full_name stored.encrypted ≡ err e
      → (x : RepositoryStoreError) × ((update c key nonce now id mutation s).0 ≡ err x)
        × ((update c key nonce now id mutation s).1.committed ≡ s.committed)
  update_refuses_tampered nonce now mutation r stored e found d tampered =
      elim (Result-cases (update c key nonce now id mutation s).0) [
        | inl (m, h) ↦ absurd (update_not_ok nonce now mutation r stored e m found d tampered h)
        | inr (x, h) ↦ (x, h, update_fails_clean c key s nonce now id mutation x h)
      ]
