-- ===== src/Security/Tests.antt =====
-- The theorems on names, secrets and credentials, at concrete ones.
use github_webhook_exporter.Prelude.{
  ℕ, ◌≡◌, ◌≢◌, refl, ◌↔◌, ◌++◌, Bool, some, ok, [], List, lit, text_eq, as_bytes,
  to_ascii_lowercase, trim, Option,
}
use github_webhook_exporter.Fixtures.{
  plain_cipher, plain_cipher-CryptoLaws, key, nonce, octo, octo_row, secret, connected,
}
use github_webhook_exporter.Security.Names.{new}
use github_webhook_exporter.Security.Names.Canonical.{IsOwnerAndRepository, new-eq_some}
use github_webhook_exporter.Security.Secrets.{
  AdminToken, EncryptedRepositorySecret, new_secret, encrypt, decrypt,
}
use github_webhook_exporter.Security.Secrets.Sealing.{decrypt-encrypt}
use github_webhook_exporter.Security.Signature.{WebhookSignature, authenticate}
use github_webhook_exporter.Security.Signature.Enabled.{
  UniqueNames, Accepts, webhook_authenticate_iff,
}
use github_webhook_exporter.Security.Admin.{
  authorization_scheme, authenticated, admin_authenticate_iff,
}
use github_webhook_exporter.Security.Admin

named : new (lit " Octo/Cat ") ≡ some octo
unfolding new
named = refl

new-eq_some_example :
    IsOwnerAndRepository (lit "octo/cat")
    × (lit "octo/cat" ≡ to_ascii_lowercase (trim (lit " Octo/Cat ")))
new-eq_some_example = new-eq_some (lit " Octo/Cat ") octo named

abbrev sealed : EncryptedRepositorySecret
sealed = record { version = 1; nonce = nonce; ciphertext = octo_row.webhook_secret_ciphertext }

accepted : new_secret (lit "secret") ≡ ok secret
unfolding new_secret
accepted = refl

encrypted : encrypt plain_cipher key nonce octo secret ≡ ok sealed
unfolding encrypt
encrypted = refl

decrypt-encrypt_example : decrypt plain_cipher key octo sealed ≡ ok secret
decrypt-encrypt_example =
    decrypt-encrypt plain_cipher plain_cipher-CryptoLaws key nonce octo (lit "secret") secret sealed
      refl accepted encrypted

-- A message authentication code that is the key and the message, one after the other.
abbrev joined_code : (key message tag : List ℕ) → Option Bool
joined_code key message tag = some (text_eq (key ++ message) tag)

abbrev signature : WebhookSignature
signature = record { digest = lit "secretbody" }

connected-UniqueNames : UniqueNames connected.committed.repositories
unfolding text_eq
connected-UniqueNames = (refl, (refl, tt))

webhook_authenticate_iff_example :
    ((authenticate joined_code plain_cipher key octo signature (lit "body") connected).0
      ≡ ok (record { id = 1 }))
    ↔ Accepts joined_code plain_cipher key octo signature
        (lit "body")
        connected.committed.repositories
        (record { id = 1 })
webhook_authenticate_iff_example =
    webhook_authenticate_iff joined_code plain_cipher key octo signature (lit "body") connected
      (record { id = 1 }) refl connected-UniqueNames

abbrev digest_of : List ℕ → List ℕ
digest_of bytes = bytes

abbrev token : AdminToken
token = record { bytes = lit "0123456789abcdef0123456789abcdef" }

admin_authenticate_iff_example :
    (Admin.authenticate digest_of (Admin.new digest_of token) (some (lit "Bearer guess"))
      ≡ ok authenticated)
    ↔ ((supplied : List ℕ) × (some (lit "Bearer guess") ≡ some (authorization_scheme ++ supplied))
        × (supplied ≢ [])
        × (digest_of (as_bytes supplied) ≡ digest_of token.bytes))
admin_authenticate_iff_example = admin_authenticate_iff digest_of token (some (lit "Bearer guess"))
