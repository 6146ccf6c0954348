-- ===== src/Security/Signature/Enabled.antt =====
-- The repositories whose webhooks src/security/webhook_auth.rs accepts, told by the table.
use github_webhook_exporter.Prelude.{
  ℕ, ◌<◌, ◌≡◌, ◌↔◌, ◌∙◌, refl, sym, ap, subst, Bool, Bool-cases, Option-cases, Result-cases, inl,
  inr, true, false, Option, none, some, List, [], ◌∷◌, any, find, text_eq, text_eq_refl,
  text_eq_iff, Text, ok, ok_inj, arith, ltb, ltb→lt, lt→ltb, true_not_false, err_not_ok,
}
use github_webhook_exporter.Prelude.Options.{some_inj}
use mathlib.Core.List.{Memᴰ}
use mathlib.Core.List.Memᴰ.{head, tail, not-nil, cases_cons}
use github_webhook_exporter.Domain.Repository.{RepositoryId, from_database}
use github_webhook_exporter.Security.Names.{CanonicalRepositoryName}
use github_webhook_exporter.Security.Secrets.{
  Crypto, RepositorySecret, EncryptedRepositorySecret, decrypt,
}
use github_webhook_exporter.Security.Signature.{
  WebhookSignature, authenticate, authenticate_material_iff, enabled_as,
}
use github_webhook_exporter.Storage.Sql.{Session, on_pool}
use github_webhook_exporter.Storage.Tables.{RepositoryRow, Database}
use github_webhook_exporter.Storage.Repository.{
  RepositoryAuthenticationMaterial, authentication_material, material, decode_encrypted_secret,
}
use github_webhook_exporter.Storage.Repository.Statements.{select_enabled}

-- The constraint UNIQUE on the names of the table.
abbrev pub UniqueNames : List RepositoryRow → Type 0
UniqueNames [] = Unit {0}
UniqueNames (r ∷ rows) =
    (any (λ (o : RepositoryRow). text_eq o.full_name r.full_name) rows ≡ false) × UniqueNames rows

find_enabled :
    (name : Text) (rows : List RepositoryRow) (r : RepositoryRow)
    → find (enabled_as name) rows ≡ some r
    → Memᴰ r rows × (r.full_name ≡ name) × (r.enabled ≡ 1)
find_enabled name [] r h = cc
find_enabled name (o ∷ rows) r h = elim (Bool-cases (enabled_as name o)) [
  | inl hit ↦
      let same : o ≡ r = some_inj o r (rw hit at h) in
      (
        head (sym same),
        ap (λ (x : RepositoryRow). x.full_name) (sym same)
            ∙ (text_eq_iff o.full_name name).0 (ground (arith, hit)),
        ap (λ (x : RepositoryRow). x.enabled) (sym same) ∙ ground (arith, hit),
      )
  | inr miss ↦
      (let (inside, named, enabled) = find_enabled name rows r (rw miss at h) in
        (tail inside, named, enabled))
]

any-false :
    (p : RepositoryRow → Bool) (rows : List RepositoryRow) (r : RepositoryRow)
    → Memᴰ r rows
    → any p rows ≡ false
    → p r ≡ false
any-false p [] r m h = absurd (not-nil m)
any-false p (o ∷ rows) r m h = elim (cases_cons m) [
  | inl same ↦ rw same (ground arith)
  | inr inside ↦ any-false p rows r inside (ground arith)
]

enabled_found :
    (name : Text) (rows : List RepositoryRow) (r : RepositoryRow)
    → UniqueNames rows
    → Memᴰ r rows
    → r.full_name ≡ name
    → r.enabled ≡ 1
    → find (enabled_as name) rows ≡ some r
enabled_found name [] r unique m n e = absurd (not-nil m)
enabled_found name (o ∷ rows) r unique m n e = elim (cases_cons m) [
  | inl same ↦
      let hit : enabled_as name r ≡ true = rw (n, text_eq_refl name, e) refl in
      rw (← same, hit) refl
  | inr inside ↦
      let apart : text_eq r.full_name o.full_name ≡ false =
        any-false (λ (x : RepositoryRow). text_eq x.full_name o.full_name) rows r inside unique.0 in
      let miss : enabled_as name o ≡ false = elim (Bool-cases (text_eq o.full_name name)) [
        | inl named ↦ absurd (
            true_not_false (
              sym (
                (text_eq_iff r.full_name o.full_name).1
                  (n ∙ sym ((text_eq_iff o.full_name name).0 named)))
              ∙ apart))
        | inr other ↦ rw other refl
      ] in
      rw miss (enabled_found name rows r unique.1 inside n e)
]

module _ (c : Crypto) (key : List ℕ) (name : CanonicalRepositoryName) where
  -- A row opens as an identifier and a secret.
  abbrev pub Opens : RepositoryRow → RepositoryId → RepositorySecret → Type 0
  Opens r id secret =
      (r.id ≡ id.id)
      × (0 < r.id)
      × ((sealed : EncryptedRepositorySecret) × (decode_encrypted_secret r ≡ ok sealed)
          × (decrypt c key name sealed ≡ ok secret))

  material-Opens :
      (r : RepositoryRow) (m : RepositoryAuthenticationMaterial)
      → material c key name r ≡ ok m
      → Opens r m.repository_id m.webhook_secret
  unfolding material from_database
  material-Opens r m h = elim (Bool-cases (ltb 0 r.id)) [
    | inr zero_id ↦ ground (arith, zero_id)
    | inl positive ↦ elim (Result-cases (decode_encrypted_secret r)) [
      | inr (x, e) ↦ ground (arith, e, positive)
      | inl (sealed, e) ↦ elim (Result-cases (decrypt c key name sealed)) [
        | inr (x, d) ↦ ground (arith, e, d, positive)
        | inl (secret, d) ↦
            let same : record { repository_id = record { id = r.id }; webhook_secret = secret }
                ≡ m =
              ok_inj _ _ (rw (positive, e, d) at h) in
            rw (← same) (refl, ltb→lt 0 r.id positive, (sealed, e, d))
      ]
    ]
  ]

  opened :
      (r : RepositoryRow) (id : RepositoryId) (secret : RepositorySecret)
      → Opens r id secret
      → material c key name r ≡ ok (record { repository_id = id; webhook_secret = secret })
  unfolding material from_database
  opened r id secret (same, positive, (sealed, decoded, decrypted)) =
      rw (lt→ltb 0 r.id positive, decoded, decrypted, same) refl

-- What it takes to accept a body as that of a repository: an enabled row of its name, whose secret
-- opens and verifies the signature.
abbrev pub Accepts :
    (verify : (key message tag : List ℕ) → Option Bool)
    → Crypto
    → List ℕ
    → CanonicalRepositoryName
    → WebhookSignature
    → List ℕ
    → List RepositoryRow
    → RepositoryId
    → Type 0
Accepts verify c key name signature body rows id =
    (r : RepositoryRow) × Memᴰ r rows
    × (r.full_name ≡ name.name)
    × (r.enabled ≡ 1)
    × ((secret : RepositorySecret) × Opens c key name r id secret
        × (verify secret.bytes body signature.digest ≡ some true))

module _ (c : Crypto) (key : List ℕ) (name : CanonicalRepositoryName) (s : Session Database)
    (served : s.faults ≡ []) where
  material_found :
      (r : RepositoryRow)
      → find (enabled_as name.name) s.committed.repositories ≡ some r
      → (authentication_material c key name s).0 ≡ material c key name r
  unfolding authentication_material on_pool select_enabled
  material_found r found = rw (served, found) refl

  nothing_found :
      (m : RepositoryAuthenticationMaterial)
      → find (enabled_as name.name) s.committed.repositories ≡ none
      → ¬ (authentication_material c key name s).0 ≡ ok m
  unfolding authentication_material on_pool select_enabled
  nothing_found m missing h = err_not_ok (rw (served, missing) at h)

-- Where SQLite serves the call and names are unique in the table, a body is authenticated as a
-- repository exactly when a row with the given name is enabled, has the repository's identifier,
-- which is positive, and holds an encrypted secret that opens under that name, and the signature
-- verifies with that secret.
pub webhook_authenticate_iff :
    (verify : (key message tag : List ℕ) → Option Bool) (c : Crypto) (key : List ℕ)
    (name : CanonicalRepositoryName) (signature : WebhookSignature) (body : List ℕ)
    (s : Session Database) (id : RepositoryId)
    → s.faults ≡ []
    → UniqueNames s.committed.repositories
    → ((authenticate verify c key name signature body s).0 ≡ ok id)
      ↔ Accepts verify c key name signature body s.committed.repositories id
webhook_authenticate_iff verify c key name signature body s id served unique =
    let by_material = authenticate_material_iff verify c key name signature body s id in
    (
      λ h.
          (let (m, yields, same, valid) = by_material.0 h in
            elim (Option-cases (find (enabled_as name.name) s.committed.repositories)) [
              | inl missing ↦ absurd (nothing_found c key name s served m missing yields)
              | inr (r, found) ↦
                  let (inside, named, enabled) =
                    find_enabled name.name s.committed.repositories r found in
                  let opens =
                    material-Opens c key name r m
                      (sym (material_found c key name s served r found) ∙ yields) in
                  (
                    r,
                    inside,
                    named,
                    enabled,
                    (
                      m.webhook_secret,
                      subst (λ i. Opens c key name r i m.webhook_secret) same opens,
                      valid,
                    ),
                  )
            ]),
      λ (r, inside, named, enabled, (secret, opens, valid)).
          (let found =
              enabled_found name.name s.committed.repositories r unique inside named enabled in
            by_material.1 (
              record { repository_id = id; webhook_secret = secret },
              material_found c key name s served r found ∙ opened c key name r id secret opens,
              refl,
              valid,
            )),
    )
