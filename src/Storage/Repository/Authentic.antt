-- ===== src/Storage/Repository/Authentic.antt =====
-- Creation and authentication of src/storage/repository_store.rs, one after the other.
use github_webhook_exporter.Prelude.{
  ℕ, ◌≡◌, refl, ◌&&◌, true, false, some, List, [], ◌∷◌, ◌++◌, any, find, Text, text_eq,
  text_eq_refl, Result-cases, ok, err, arith, ◌==◌, as_bytes, inl, inr,
}
use github_webhook_exporter.Domain.Repository.{RepositoryMetadata, from_database}
use github_webhook_exporter.Security.Names.{CanonicalRepositoryName, new}
use github_webhook_exporter.Security.Names.Canonical.{new-new}
use github_webhook_exporter.Security.Secrets.{
  SecurityError, RepositorySecret, EncryptedRepositorySecret, Crypto, CryptoLaws, encrypt, decrypt,
  from_decrypted_bytes, from_parts,
}
use github_webhook_exporter.Storage.Sql.{Session, begin, commit, in_transaction, on_pool}
use github_webhook_exporter.Storage.Tables.{RepositoryRow, Database}
use github_webhook_exporter.Storage.Repository.{
  create, authentication_material, authenticate_row, material, sealed_for, decode_row,
  decode_encrypted_secret, StoredRepository,
}
use github_webhook_exporter.Storage.Repository.Statements.{
  insert_repository, inserted_row, select_enabled,
}

find-new :
    (name : Text) (rows : List RepositoryRow) (r : RepositoryRow)
    → any (λ (o : RepositoryRow). text_eq o.full_name name) rows ≡ false
    → text_eq r.full_name name ≡ true
    → r.enabled ≡ 1
    → find (λ (o : RepositoryRow). text_eq o.full_name name && o.enabled == 1) (rows ++ r ∷ [])
      ≡ some r
find-new name [] r n e h = ground arith
find-new name (o ∷ rows) r n e h = ground (arith, find-new name rows r)

module _ (c : Crypto) (key nonce : List ℕ) (now : Text) (name : CanonicalRepositoryName)
    (secret : RepositorySecret) (s : Session Database) (m : RepositoryMetadata) where
  abbrev new_row : EncryptedRepositorySecret → RepositoryRow
  new_row enc = inserted_row now (sealed_for enc name true) s.committed.repositories

  abbrev Created : EncryptedRepositorySecret → Session Database → Type 0
  Created enc t =
      (encrypt c key nonce name secret ≡ ok enc)
      × (any (λ (o : RepositoryRow). text_eq o.full_name name.name) s.committed.repositories
          ≡ false)
      × (t.committed.repositories ≡ s.committed.repositories ++ new_row enc ∷ [])
      × (authenticate_row c key (new_row enc) ≡ ok m)

  create_inserts :
      (enc : EncryptedRepositorySecret)
      → encrypt c key nonce name secret ≡ ok enc
      → (create c key nonce now name secret true s).0 ≡ ok m
      → Created enc (create c key nonce now name secret true s).1
  unfolding create begin commit in_transaction insert_repository
  create_inserts enc e h = ground arith

  encrypted_parts :
      (enc : EncryptedRepositorySecret)
      → encrypt c key nonce name secret ≡ ok enc
      → (c.seal key nonce (as_bytes name.name) secret.bytes ≡ some enc.ciphertext)
        × (enc.nonce ≡ nonce)
  unfolding encrypt
  encrypted_parts enc e = ground arith

  create_fails :
      (x : SecurityError)
      → encrypt c key nonce name secret ≡ err x
      → ¬ (create c key nonce now name secret true s).0 ≡ ok m
  unfolding create begin
  create_fails x e h = ground arith

  decoded :
      (r : RepositoryRow) (stored : StoredRepository)
      → decode_row r ≡ ok stored
      → new r.full_name ≡ some name
      → (stored.full_name ≡ name)
        × (decode_encrypted_secret r ≡ ok stored.encrypted)
        × (from_database r.id ≡ some stored.id)
  unfolding decode_row
  decoded r stored d n = ground arith

  parts_decoded :
      (r : RepositoryRow) (enc : EncryptedRepositorySecret)
      → decode_encrypted_secret r ≡ ok enc
      → (enc.ciphertext ≡ r.webhook_secret_ciphertext) × (enc.nonce ≡ r.webhook_secret_nonce)
  unfolding decode_encrypted_secret from_parts
  parts_decoded r enc d = ground arith

  decrypted :
      (enc : EncryptedRepositorySecret) (plain : RepositorySecret)
      → c.unseal key enc.nonce (as_bytes name.name) enc.ciphertext ≡ some secret.bytes
      → decrypt c key name enc ≡ ok plain
      → plain ≡ secret
  unfolding decrypt from_decrypted_bytes
  decrypted enc plain u d = ground arith

  -- A row that passes the store's check yields the secret that was sealed into it.
  authentic_row :
      (laws : CryptoLaws c) (enc : EncryptedRepositorySecret) (r : RepositoryRow)
      → c.seal key nonce (as_bytes name.name) secret.bytes ≡ some enc.ciphertext
      → r.webhook_secret_ciphertext ≡ enc.ciphertext
      → r.webhook_secret_nonce ≡ nonce
      → r.full_name ≡ name.name
      → new name.name ≡ some name
      → authenticate_row c key r ≡ ok m
      → material c key name r ≡ ok (record { repository_id = m.id; webhook_secret = secret })
  unfolding authenticate_row material
  authentic_row laws enc r e h n u v w = elim (Result-cases (decode_row r)) [
    | inr (x, d) ↦ ground (arith, d)
    | inl (stored, d) ↦
        let (named, opened, found) = decoded r stored d (rw u v) in
        let (cipher, nonce_kept) = parts_decoded r stored.encrypted opened in
        elim (Result-cases (decrypt c key stored.full_name stored.encrypted)) [
          | inr (x, q) ↦ ground (arith, d, q)
          | inl (plain, q) ↦
              let unsealed =
                laws.unseal-seal key nonce (as_bytes name.name) secret.bytes enc.ciphertext e in
              let fits : decrypt c key name stored.encrypted ≡ ok plain = rw (← named) q in
              let same : plain ≡ secret =
                decrypted stored.encrypted plain (rw (cipher, nonce_kept, h, n) unsealed) fits in
              ground (arith, d, q, opened, found, fits, same)
        ]
  ]

  -- A repository that was created enabled, under a name that was accepted and with a cipher that
  -- meets its laws, is found by its name: an authentication on the database that its creation left,
  -- with SQLite serving every call, has its identifier and the secret that it was created with.
  pub create_authenticates :
      (laws : CryptoLaws c) (t : Session Database) (given : Text)
      → new given ≡ some name
      → (create c key nonce now name secret true s).0 ≡ ok m
      → t.committed ≡ (create c key nonce now name secret true s).1.committed
      → t.faults ≡ []
      → (authentication_material c key name t).0
        ≡ ok (record { repository_id = m.id; webhook_secret = secret })
  unfolding authentication_material on_pool select_enabled
  create_authenticates laws t given named created same served =
      elim (Result-cases (encrypt c key nonce name secret)) [
        | inr (x, e) ↦ absurd (create_fails x e created)
        | inl (enc, e) ↦
            let (_, unique, stored, authentic) = create_inserts enc e created in
            let (sealed, kept) = encrypted_parts enc e in
            let found =
              find-new name.name s.committed.repositories (new_row enc) unique
                (text_eq_refl name.name) refl in
            let read =
              authentic_row laws enc (new_row enc) sealed refl kept refl (new-new given name named)
                authentic in
            rw (served, same, stored, found, read) refl
      ]
