-- ===== src/Security/Signature.antt =====
-- Webhook signatures: src/security/webhook_auth.rs. HMAC-SHA-256 and the hexadecimal decoder are
-- parameters.
pub mod Enabled
use github_webhook_exporter.Prelude.{
  ℕ, ◌≡◌, ◌==◌, ◌↔◌, refl, Bool, true, false, Option, none, some, List, [], ◌∷◌, length, Text, lit,
  text_eq, strip_prefix, as_bytes, Result, ok, err, Result-cases, find, any, ◌&&◌, Option-cases,
  inl, inr, arith, ok_or, map_err, ◌>>=◌, if◌then◌else◌,
}
use github_webhook_exporter.Domain.Repository.{RepositoryId, from_database}
use github_webhook_exporter.Security.Names.{CanonicalRepositoryName}
use github_webhook_exporter.Security.Secrets.{Crypto}
use github_webhook_exporter.Storage.Sql.{Session, on_pool}
use github_webhook_exporter.Storage.Tables.{RepositoryRow, Database}
use github_webhook_exporter.Storage.Repository.Statements.{select_enabled}
use github_webhook_exporter.Storage.Repository.{
  RepositoryStoreError, authentication_failed, authentication_material, material,
  RepositoryAuthenticationMaterial,
}

pub data WebhookAuthenticationError : Type 0 where
  unauthorized unavailable : WebhookAuthenticationError

pub record WebhookSignature : Type 0 where
  pub digest : List ℕ

unfoldable pub from_store_error : RepositoryStoreError → WebhookAuthenticationError
from_store_error authentication_failed = unauthorized
from_store_error _ = unavailable

abbrev of_length : ℕ → Option (List ℕ) → Option (List ℕ)
of_length n none = none
of_length n (some bytes) = if length bytes == n then some bytes else none

-- `decode` is `hex::decode_to_slice` of 64 digits into 32 bytes.
unfoldable pub parse :
    (decode : List ℕ → Option (List ℕ)) → Text → Result WebhookAuthenticationError WebhookSignature
unfolding strip_prefix as_bytes
parse decode value =
    ok_or (of_length 64 (strip_prefix (lit "sha256=") (as_bytes value))) unauthorized >>= λ encoded.
    ok_or (decode encoded) unauthorized >>= λ digest. ok (record { digest = digest })

abbrev pub enabled_as : Text → RepositoryRow → Bool
enabled_as name r = text_eq r.full_name name && r.enabled == 1

find→any :
    {A : Type 0} (p q : A → Bool) (xs : List A) (x : A)
    → find p xs ≡ some x
    → (p x ≡ true → q x ≡ true)
    → any q xs ≡ true
find→any p q [] x e h = cc
find→any p q (y ∷ ys) x e h = ground (arith, find→any p q ys x)

material_id :
    (c : Crypto) (key : List ℕ) (name : CanonicalRepositoryName) (r : RepositoryRow)
    (m : RepositoryAuthenticationMaterial)
    → material c key name r ≡ ok m
    → r.id ≡ m.repository_id.id
unfolding material from_database
material_id c key name r m h = ground arith

-- `verify key message tag` is the crate's `new_from_slice`, `update` and `verify_slice`; `none` is a
-- key that it refuses.
module _ (verify : (key message tag : List ℕ) → Option Bool) where
  abbrev verified : RepositoryId → Option Bool → Result WebhookAuthenticationError RepositoryId
  verified id none = err unavailable
  verified id (some false) = err unauthorized
  verified id (some true) = ok id

  unfoldable pub authenticate :
      Crypto
      → (key : List ℕ) → CanonicalRepositoryName
      → WebhookSignature
      → (request_body : List ℕ) → Session Database
      → Result WebhookAuthenticationError RepositoryId × Session Database
  unfolding from_store_error
  authenticate c key name signature body s =
      let (found, t) = authentication_material c key name s in
      (
        map_err from_store_error found >>= λ (m : RepositoryAuthenticationMaterial).
            verified m.repository_id (verify m.webhook_secret.bytes body signature.digest),
        t,
      )

  -- A body is authenticated exactly when the store yields a secret for that name and the signature
  -- verifies under it, and then as the repository that the store tells.
  pub authenticate_material_iff :
      (c : Crypto) (key : List ℕ) (name : CanonicalRepositoryName) (signature : WebhookSignature)
      (body : List ℕ) (s : Session Database) (id : RepositoryId)
      → ((authenticate c key name signature body s).0 ≡ ok id) ↔ (
          (m : RepositoryAuthenticationMaterial) × ((authentication_material c key name s).0 ≡ ok m)
          × (m.repository_id ≡ id)
          × (verify m.webhook_secret.bytes body signature.digest ≡ some true))
  unfolding authenticate
  authenticate_material_iff c key name signature body s id = (
    λ h. elim (Result-cases (authentication_material c key name s).0) [
      | inl (m, e) ↦ (m, e, ground (arith, e), ground (arith, e))
      | inr (x, e) ↦ ground (arith, e)
    ],
    λ (m, e, same, valid). rw (e, same, valid) refl,
  )

  -- An authenticated body is one of a repository that is configured under that name and enabled.
  pub authenticated_enabled :
      (c : Crypto) (key : List ℕ) (name : CanonicalRepositoryName) (signature : WebhookSignature)
      (body : List ℕ) (s : Session Database) (id : RepositoryId)
      → (authenticate c key name signature body s).0 ≡ ok id
      → any
          (λ (r : RepositoryRow). r.id == id.id && text_eq r.full_name name.name && r.enabled == 1)
          s.committed.repositories
        ≡ true
  unfolding authentication_material on_pool select_enabled
  authenticated_enabled c key name signature body s id h =
      let (m, found, same, _) = (authenticate_material_iff c key name signature body s id).0 h in
      elim (Option-cases (find (enabled_as name.name) s.committed.repositories)) [
        | inl e ↦ ground (arith, e)
        | inr (r, e) ↦ find→any (enabled_as name.name) _ _ r e (λ hit.
            ground (arith, hit, same, material_id c key name r m (ground (arith, e, found))))
      ]
