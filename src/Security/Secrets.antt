-- ===== src/Security/Secrets.antt =====
-- Keys, tokens, secrets and their encryption: src/security/mod.rs and src/security/secret_cipher.rs.
-- AES-256-GCM and HKDF-SHA-256 are parameters of the model.
pub mod Sealing
use github_webhook_exporter.Prelude.{
  ℕ, ◌+◌, ◌-◌, ◌≡◌, ◌==◌, ◌&&◌, Bool, true, false, not, Option, none, some, List, [], ◌∷◌, length,
  Text, lit, leb, ltb, as_bytes, Result, ok, err, ok_or, ◌>>=◌, if◌then◌else◌,
}
use github_webhook_exporter.Security.Names.{CanonicalRepositoryName}

pub data SecurityError : Type 0 where
  invalid_master_key_length invalid_admin_token invalid_repository_secret_length : SecurityError
  invalid_repository_name invalid_encrypted_secret : SecurityError
  unsupported_encryption_version : (version : ℕ) → SecurityError
  key_derivation_failed encryption_failed decryption_failed : SecurityError

abbrev pub encryption_version : ℕ
encryption_version = 1

pub record MasterKey : Type 0 where
  pub bytes : List ℕ

unfoldable pub from_slice : List ℕ → Result SecurityError MasterKey
from_slice bytes =
    if not (length bytes == 32)
    then err invalid_master_key_length
    else ok (record { bytes = bytes })

pub record AdminToken : Type 0 where
  pub bytes : List ℕ

unfoldable pub new_admin_token : Text → Result SecurityError AdminToken
unfolding as_bytes
new_admin_token token =
    if ltb (length (as_bytes token)) 32
    then err invalid_admin_token
    else ok (record { bytes = as_bytes token })

pub record RepositorySecret : Type 0 where
  pub bytes : List ℕ

unfoldable pub valid_repository_secret_bytes : List ℕ → Bool
valid_repository_secret_bytes secret = not (length secret == 0) && leb (length secret) 65536

unfoldable pub new_secret : Text → Result SecurityError RepositorySecret
unfolding as_bytes valid_repository_secret_bytes
new_secret secret =
    if not (valid_repository_secret_bytes (as_bytes secret))
    then err invalid_repository_secret_length
    else ok (record { bytes = as_bytes secret })

-- `std::str::from_utf8(_).is_ok()`, as an automaton: how many continuation bytes are to come, and
-- the range of the next one; `none` is a byte that fits nowhere.
pub record Awaiting : Type 0 where
  pub count : ℕ
  pub lowest : ℕ
  pub highest : ℕ

abbrev sequence : ℕ → ℕ → ℕ → Option Awaiting
sequence count lowest highest = some (record { count = count; lowest = lowest; highest = highest })

abbrev within : ℕ → ℕ → ℕ → Bool
within lowest highest b = leb lowest b && leb b highest

unfoldable pub first_byte : ℕ → Option Awaiting
first_byte b =
    if ltb b 0x80
    then sequence 0 0x80 0xBF
    else if within 0xC2 0xDF b
    then sequence 1 0x80 0xBF
    else if b == 0xE0
    then sequence 2 0xA0 0xBF
    else if b == 0xED
    then sequence 2 0x80 0x9F
    else if within 0xE1 0xEF b
    then sequence 2 0x80 0xBF
    else if b == 0xF0
    then sequence 3 0x90 0xBF
    else if within 0xF1 0xF3 b
    then sequence 3 0x80 0xBF
    else if b == 0xF4
    then sequence 3 0x80 0x8F
    else none

unfoldable pub next_byte : Awaiting → ℕ → Option Awaiting
unfolding first_byte
next_byte w b =
    if w.count == 0
    then first_byte b
    else if within w.lowest w.highest b
    then sequence (w.count - 1) 0x80 0xBF
    else none

unfoldable pub accepts_utf8 : Option Awaiting → List ℕ → Bool
accepts_utf8 none bytes = false
accepts_utf8 (some w) [] = w.count == 0
accepts_utf8 (some w) (b ∷ bytes) = accepts_utf8 (next_byte w b) bytes

unfoldable pub is_utf8 : List ℕ → Bool
unfolding accepts_utf8 next_byte
is_utf8 = accepts_utf8 (sequence 0 0x80 0xBF)

unfoldable pub from_decrypted_bytes : List ℕ → Result SecurityError RepositorySecret
unfolding is_utf8 valid_repository_secret_bytes
from_decrypted_bytes secret =
    if valid_repository_secret_bytes secret && is_utf8 secret
    then ok (record { bytes = secret })
    else err decryption_failed

pub record EncryptedRepositorySecret : Type 0 where
  pub version : ℕ
  pub nonce : List ℕ
  pub ciphertext : List ℕ

unfoldable pub from_parts : ℕ → List ℕ → List ℕ → Result SecurityError EncryptedRepositorySecret
from_parts version nonce ciphertext =
    if not (version == encryption_version)
    then err (unsupported_encryption_version version)
    else if not (length nonce == 12)
    then err invalid_encrypted_secret
    else if ltb (length ciphertext) 16
    then err invalid_encrypted_secret
    else ok (record { version = version; nonce = nonce; ciphertext = ciphertext })

-- The crates behind the cipher. `seal key nonce associated_data message` and `unseal` are AES-GCM.
pub record Crypto : Type 0 where
  pub expand : (master_key context : List ℕ) → Option (List ℕ)
  pub seal : (key nonce associated_data message : List ℕ) → Option (List ℕ)
  pub unseal : (key nonce associated_data ciphertext : List ℕ) → Option (List ℕ)

-- What the documentation of AES-GCM says of the two: a sealed message is longer by the tag, and is
-- unsealed under the same key, nonce and associated data.
pub record CryptoLaws (c : Crypto) : Type 0 where
  pub unseal-seal :
      (key nonce aad message sealed : List ℕ)
      → c.seal key nonce aad message ≡ some sealed
      → c.unseal key nonce aad sealed ≡ some message
  pub length-seal :
      (key nonce aad message sealed : List ℕ)
      → c.seal key nonce aad message ≡ some sealed
      → length sealed ≡ length message + 16

-- `derive_key` and `RepositorySecretCipher::new`; the cipher is its derived key.
unfoldable pub new_cipher : Crypto → MasterKey → Result SecurityError (List ℕ)
new_cipher c key =
    ok_or (c.expand key.bytes (lit "github-webhook-exporter/repository-secret/v1"))
      key_derivation_failed

unfoldable pub encrypt :
    Crypto
    → (key nonce : List ℕ) → CanonicalRepositoryName
    → RepositorySecret
    → Result SecurityError EncryptedRepositorySecret
encrypt c key nonce repository secret =
    ok_or (c.seal key nonce (as_bytes repository.name) secret.bytes) encryption_failed
    >>= λ ciphertext.
        ok (record { version = encryption_version; nonce = nonce; ciphertext = ciphertext })

unfoldable pub decrypt :
    Crypto
    → (key : List ℕ) → CanonicalRepositoryName
    → EncryptedRepositorySecret
    → Result SecurityError RepositorySecret
unfolding from_decrypted_bytes
decrypt c key repository encrypted =
    if not (encrypted.version == encryption_version)
    then err (unsupported_encryption_version encrypted.version)
    else ok_or (c.unseal key encrypted.nonce (as_bytes repository.name) encrypted.ciphertext)
        decryption_failed
      >>= from_decrypted_bytes
