-- ===== src/Storage/Repository/Tests.antt =====
-- The theorems on repositories, at a table with one of them and a tampered row.
use github_webhook_exporter.Prelude.{ℕ, ◌≡◌, refl, true, some, none, ok, err, [], ◌∷◌, lit, text_eq}
use github_webhook_exporter.Fixtures.{
  plain_cipher, plain_cipher-CryptoLaws, key, nonce, secret, connected, tables, tampered_row,
}
use github_webhook_exporter.Domain.Repository.{RepositoryId, RepositoryMetadata, RepositoryMutation}
use github_webhook_exporter.Security.Names.{CanonicalRepositoryName, new}
use github_webhook_exporter.Security.Secrets.{decryption_failed, encrypt, decrypt}
use github_webhook_exporter.Storage.Repository.{
  RepositoryStoreError, create, update, authentication_material, StoredRepository, decode_row,
}
use github_webhook_exporter.Storage.Repository.Authentic.{create_authenticates}
use github_webhook_exporter.Storage.Repository.Mutations.{update_refuses_tampered}

abbrev id : ℕ → RepositoryId
id n = record { id = n }

abbrev bird : CanonicalRepositoryName
bird = record { name = lit "octo/bird" }

abbrev rename : RepositoryMutation
rename = record { full_name = some bird; webhook_secret = some secret; enabled = none }

abbrev created_bird : RepositoryMetadata
created_bird = record {
  id = id 3;
  full_name = bird;
  enabled = true;
  created_at = 70 ∷ [];
  updated_at = 70 ∷ [];
}

abbrev stored_dog : StoredRepository
stored_dog = record {
  id = id 2;
  full_name = record { name = tampered_row.full_name };
  encrypted = record {
    version = 1;
    nonce = nonce;
    ciphertext = tampered_row.webhook_secret_ciphertext;
  };
  enabled = true;
  created_at = 1 ∷ [];
  updated_at = 1 ∷ [];
}

bird_named : new (lit "Octo/Bird") ≡ some bird
unfolding new
bird_named = refl

bird_created :
    (create plain_cipher key nonce (70 ∷ []) bird secret true connected).0 ≡ ok created_bird
unfolding create encrypt text_eq new decrypt
bird_created = refl

bird_quiet : (create plain_cipher key nonce (70 ∷ []) bird secret true connected).1.faults ≡ []
unfolding create encrypt text_eq new decrypt
bird_quiet = refl

create_authenticates_example :
    (authentication_material plain_cipher key bird
      (create plain_cipher key nonce (70 ∷ []) bird secret true connected).1).0
    ≡ ok (record { repository_id = id 3; webhook_secret = secret })
create_authenticates_example =
    create_authenticates plain_cipher key nonce (70 ∷ []) bird secret connected created_bird
      plain_cipher-CryptoLaws (create plain_cipher key nonce (70 ∷ []) bird secret true connected).1
      (lit "Octo/Bird") bird_named bird_created refl bird_quiet

dog_stored : decode_row tampered_row ≡ ok stored_dog
unfolding decode_row new
dog_stored = refl

dog_tampered :
    decrypt plain_cipher key stored_dog.full_name stored_dog.encrypted ≡ err decryption_failed
unfolding decrypt
dog_tampered = refl

update_refuses_tampered_example :
    (x : RepositoryStoreError) × ((update plain_cipher key nonce
        (70 ∷ [])
        (id 2)
        rename
        connected).0
      ≡ err x)
    × ((update plain_cipher key nonce (70 ∷ []) (id 2) rename connected).1.committed ≡ tables)
update_refuses_tampered_example =
    update_refuses_tampered plain_cipher key (id 2) connected nonce (70 ∷ []) rename tampered_row
      stored_dog decryption_failed refl dog_stored dog_tampered
