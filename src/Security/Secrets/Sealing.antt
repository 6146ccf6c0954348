-- ===== src/Security/Secrets/Sealing.antt =====
-- Encryption and decryption of src/security/secret_cipher.rs, one after the other.
use github_webhook_exporter.Prelude.{
  ℕ, ◌+◌, ◌-◌, ◌/◌, ◌%◌, ◌<◌, ◌≤◌, ◌≡◌, refl, ◌∙◌, ◌&&◌, ◌||◌, Bool, true, Bool-cases,
  if◌then◌else◌, inl, inr, Option, List, [], ◌∷◌, ◌++◌, some, none, all, arith, length, Text, ltb,
  leb, encode_utf8, as_bytes, ok,
}
use github_webhook_exporter.Security.Names.{CanonicalRepositoryName}
use github_webhook_exporter.Security.Secrets.{
  Awaiting, first_byte, next_byte, accepts_utf8, is_utf8, RepositorySecret, new_secret,
  valid_repository_secret_bytes, from_decrypted_bytes, EncryptedRepositorySecret, from_parts,
  Crypto, CryptoLaws, encrypt, decrypt,
}

-- A Unicode scalar value.
abbrev pub is_scalar : ℕ → Bool
is_scalar c = ltb c 0xD800 || leb 0xE000 c && ltb c 0x110000

abbrev between : Awaiting
between = record { count = 0; lowest = 0x80; highest = 0xBF }

step : Option Awaiting → ℕ → Option Awaiting
step none b = none
step (some w) b = next_byte w b

accepts-step :
    (o : Option Awaiting) (b : ℕ) (rest : List ℕ)
    → accepts_utf8 o (b ∷ rest) ≡ accepts_utf8 (step o b) rest
unfolding accepts_utf8 step
accepts-step none b [] = refl
accepts-step none b (x ∷ rest) = refl
accepts-step (some w) b rest = refl

module _ (c : ℕ) where
  one_byte : c < 0x80 → step (some between) c ≡ some between
  unfolding step next_byte first_byte
  one_byte h = ground arith

  continues :
      (x lowest highest count : ℕ)
      → 0 < count
      → lowest ≤ 0x80 + x % 64
      → 0x80 + x % 64 ≤ highest
      → step (some (record { count = count; lowest = lowest; highest = highest })) (0x80 + x % 64)
        ≡ some (record { count = count - 1; lowest = 0x80; highest = 0xBF })
  unfolding step next_byte
  continues x lowest highest count p l h = ground arith

  two_bytes :
      0x80 ≤ c
      → c < 0x800
      → step (step (some between) (0xC0 + c / 64)) (0x80 + c % 64) ≡ some between
  unfolding step next_byte first_byte
  two_bytes l h = ground arith

  three_bytes :
      0x800 ≤ c
      → c < 0x10000
      → is_scalar c ≡ true
      → step (step (some between) (0xE0 + c / 4096)) (0x80 + c / 64 % 64)
        ≡ some (record { count = 1; lowest = 0x80; highest = 0xBF })
  unfolding step next_byte first_byte
  three_bytes l h s = ground arith

  four_bytes :
      0x10000 ≤ c
      → is_scalar c ≡ true
      → step (step (some between) (0xF0 + c / 262144)) (0x80 + c / 4096 % 64)
        ≡ some (record { count = 2; lowest = 0x80; highest = 0xBF })
  unfolding step next_byte first_byte
  four_bytes l s = ground arith

  encode-long :
      (rest : List ℕ)
      → is_scalar c ≡ true
      → 0x80 ≤ c
      → accepts_utf8 (some between) (
          (if ltb c 0x800
            then (0xC0 + c / 64) ∷ (0x80 + c % 64) ∷ []
            else if ltb c 0x10000
            then (0xE0 + c / 4096) ∷ (0x80 + c / 64 % 64) ∷ (0x80 + c % 64) ∷ []
            else (0xF0 + c / 262144)
              ∷ (0x80 + c / 4096 % 64)
              ∷ (0x80 + c / 64 % 64)
              ∷ (0x80 + c % 64)
              ∷ [])
          ++ rest)
        ≡ accepts_utf8 (some between) rest
  encode-long rest s l = elim (Bool-cases (ltb c 0x800)) [
    | inl small ↦ rw (small, accepts-step, accepts-step, two_bytes l (ground arith)) refl
    | inr above ↦ elim (Bool-cases (ltb c 0x10000)) [
      | inl small ↦
          rw
            (
              above,
              small,
              accepts-step,
              accepts-step,
              accepts-step,
              three_bytes (ground arith) (ground arith) s,
              continues c 0x80 0xBF 1 (omega arith) (omega arith) (omega arith),
            )
            refl
      | inr high ↦
          rw
            (
              above,
              high,
              accepts-step,
              accepts-step,
              accepts-step,
              accepts-step,
              four_bytes (ground arith) s,
              continues (c / 64) 0x80 0xBF 2 (omega arith) (omega arith) (omega arith),
              continues c 0x80 0xBF 1 (omega arith) (omega arith) (omega arith),
            )
            refl
    ]
  ]

  encode-accepted :
      (rest : List ℕ)
      → is_scalar c ≡ true
      → accepts_utf8 (some between) (encode_utf8 c ++ rest) ≡ accepts_utf8 (some between) rest
  unfolding encode_utf8
  encode-accepted rest s = elim (Bool-cases (ltb c 0x80)) [
    | inl small ↦ rw (small, accepts-step (some between) c rest, one_byte (ground arith)) refl
    | inr above ↦ rw above (encode-long rest s (ground arith))
  ]

-- The bytes of a Rust string are accepted as UTF-8.
utf8-as_bytes : (s : Text) → all is_scalar s ≡ true → is_utf8 (as_bytes s) ≡ true
unfolding is_utf8 as_bytes accepts_utf8
utf8-as_bytes [] h = refl
utf8-as_bytes (c ∷ s) h =
    encode-accepted c (as_bytes s) (ground arith) ∙ utf8-as_bytes s (ground arith)

module _ (c : Crypto) (laws : CryptoLaws c) (key nonce : List ℕ) (name : CanonicalRepositoryName)
    (text : Text) (secret : RepositorySecret) (sealed : EncryptedRepositorySecret)
    (scalar : all is_scalar text ≡ true) (accepted : new_secret text ≡ ok secret)
    (encrypted : encrypt c key nonce name secret ≡ ok sealed) where
  seal-encrypt : c.seal key nonce (as_bytes name.name) secret.bytes ≡ some sealed.ciphertext
  unfolding encrypt
  seal-encrypt = ground arith

  nonce-encrypt : (sealed.nonce ≡ nonce) × (sealed.version ≡ 1)
  unfolding encrypt
  nonce-encrypt = ground arith

  bytes-new :
      (secret.bytes ≡ as_bytes text) × (valid_repository_secret_bytes (as_bytes text) ≡ true)
  unfolding new_secret
  bytes-new = ground arith

  -- With a cipher that meets its laws, a secret of Unicode scalar values that
  -- `RepositorySecret::new` accepts and the cipher encrypts is decrypted to itself
  -- under the same key and repository name.
  pub decrypt-encrypt : decrypt c key name sealed ≡ ok secret
  unfolding decrypt from_decrypted_bytes
  decrypt-encrypt = ground (
    arith,
    seal-encrypt,
    nonce-encrypt,
    bytes-new,
    laws.unseal-seal key nonce (as_bytes name.name) secret.bytes sealed.ciphertext,
    utf8-as_bytes text scalar,
  )

  -- With a nonce of 12 bytes, what was encrypted passes the checks of `from_parts` when it is read
  -- back from its columns.
  pub from_parts-encrypt :
      length nonce ≡ 12 → from_parts sealed.version sealed.nonce sealed.ciphertext ≡ ok sealed
  unfolding from_parts
  from_parts-encrypt n = ground (
    arith,
    seal-encrypt,
    nonce-encrypt,
    laws.length-seal key nonce (as_bytes name.name) secret.bytes sealed.ciphertext,
  )
