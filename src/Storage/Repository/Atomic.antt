-- ===== src/Storage/Repository/Atomic.antt =====
-- The failures of src/storage/repository_store.rs and the committed database.
use github_webhook_exporter.Prelude.{
  ℕ, ◌≡◌, refl, ◌∙◌, Bool, Bool-cases, inl, inr, List, Text, Result, ok, err, arith,
}
use github_webhook_exporter.Domain.Repository.{RepositoryId, RepositoryMutation, is_empty}
use github_webhook_exporter.Security.Names.{CanonicalRepositoryName}
use github_webhook_exporter.Security.Secrets.{RepositorySecret, Crypto}
use github_webhook_exporter.Storage.Sql.{Session, Sql, begin, commit, in_transaction, ◌>>=◌}
use github_webhook_exporter.Storage.Tables.{RepositoryRow, Database}
use github_webhook_exporter.Storage.Repository.{
  RepositoryStoreError, prepare, write_back, create, update, delete,
}

write_back_clean :
    (c : Crypto) (key : List ℕ) (now : Text) (id : RepositoryId) (r : RepositoryRow)
    (t : Session Database) (e : RepositoryStoreError)
    → (write_back c key now id r t).0 ≡ err e
    → (write_back c key now id r t).1.committed ≡ t.committed
unfolding write_back commit in_transaction
write_back_clean c key now id r t e h = ground arith

prepare_quiet :
    (c : Crypto) (key nonce : List ℕ) (id : RepositoryId) (mutation : RepositoryMutation)
    (s : Session Database)
    → (prepare c key nonce id mutation s).1.committed ≡ s.committed
unfolding prepare begin in_transaction
prepare_quiet c key nonce id mutation s = ground arith

continue_clean :
    {A B : Type 0} (k : A → Sql Database RepositoryStoreError B) (s : Session Database)
    (p : Result RepositoryStoreError A × Session Database)
    → p.1.committed ≡ s.committed
    → ((a : A) (t : Session Database) (e : RepositoryStoreError)
        → (k a t).0 ≡ err e
        → (k a t).1.committed ≡ t.committed)
    → (e : RepositoryStoreError) → (((λ _. p) >>= k) s).0 ≡ err e
    → (((λ _. p) >>= k) s).1.committed ≡ s.committed
continue_clean k s (ok a, t) q f e h = f a t e h ∙ q
continue_clean k s (err x, t) q f e h = q

module _ (c : Crypto) (key : List ℕ) (s : Session Database) where
  -- A creation that fails, at whichever step, leaves the committed database as it was.
  pub create_fails_clean :
      (nonce : List ℕ) (now : Text) (name : CanonicalRepositoryName) (secret : RepositorySecret)
      (enabled : Bool) (e : RepositoryStoreError)
      → (create c key nonce now name secret enabled s).0 ≡ err e
      → (create c key nonce now name secret enabled s).1.committed ≡ s.committed
  unfolding create begin commit in_transaction
  create_fails_clean nonce now name secret enabled e h = ground arith

  -- An update that fails, at whichever step, leaves the committed database as it was.
  pub update_fails_clean :
      (nonce : List ℕ) (now : Text) (id : RepositoryId) (mutation : RepositoryMutation)
      (e : RepositoryStoreError)
      → (update c key nonce now id mutation s).0 ≡ err e
      → (update c key nonce now id mutation s).1.committed ≡ s.committed
  unfolding update
  update_fails_clean nonce now id mutation e = elim (Bool-cases (is_empty mutation)) [
    | inl empty ↦ rw empty (λ h. refl)
    | inr changes ↦ rw changes (
        continue_clean (write_back c key now id) s (prepare c key nonce id mutation s)
          (prepare_quiet c key nonce id mutation s) (write_back_clean c key now id) e)
  ]

  -- A deletion that fails, at whichever step, leaves the committed database as it was.
  pub delete_fails_clean :
      (id : RepositoryId) (e : RepositoryStoreError)
      → (delete c key id s).0 ≡ err e
      → (delete c key id s).1.committed ≡ s.committed
  unfolding delete begin commit in_transaction
  delete_fails_clean id e h = ground arith
