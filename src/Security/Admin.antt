-- ===== src/Security/Admin.antt =====
-- The administrator's bearer token: src/security/admin_auth.rs. SHA-256 is a parameter.
use github_webhook_exporter.Prelude.{
  ℕ, ◌≡◌, refl, ◌++◌, ◌↔◌, ◌≢◌, Option, none, some, List, [], ◌∷◌, Text, lit, text_eq, text_eq_iff,
  text_eq_refl, strip_prefix, strip_prefix-append, strip_prefix-eq_some, Option-cases, inl, inr,
  as_bytes, Result, ok, err, if◌then◌else◌, arith,
}
use github_webhook_exporter.Security.Secrets.{AdminToken}

pub data AuthenticationError : Type 0 where
  invalid_bearer_credentials : AuthenticationError

pub data Authenticated : Type 0 where
  authenticated : Authenticated

-- What is kept of the token: its digest.
pub record AdminAuthenticator : Type 0 where
  pub expected_digest : List ℕ

abbrev pub authorization_scheme : Text
authorization_scheme = lit "Bearer "

-- `filter(|token| !token.is_empty())`.
abbrev not_empty : Option Text → Option Text
not_empty none = none
not_empty (some []) = none
not_empty (some (c ∷ token)) = some (c ∷ token)

unfoldable pub supplied_token : Option Text → Option Text
unfolding strip_prefix
supplied_token none = none
supplied_token (some value) = not_empty (strip_prefix authorization_scheme value)

supplied→bearer :
    (authorization : Option Text) (token : Text)
    → supplied_token authorization ≡ some token
    → (authorization ≡ some (authorization_scheme ++ token)) × (token ≢ [])
unfolding supplied_token
supplied→bearer none token h = cc
supplied→bearer (some value) token h =
    elim (Option-cases (strip_prefix authorization_scheme value)) [
      | inl e ↦ ground (arith, e)
      | inr (rest, e) ↦ ground (arith, e, strip_prefix-eq_some authorization_scheme value rest e)
    ]

bearer→supplied :
    (token : Text) → token ≢ [] → supplied_token (some (authorization_scheme ++ token)) ≡ some token
unfolding supplied_token
bearer→supplied [] h = absurd (h refl)
bearer→supplied (x ∷ token) h = rw (strip_prefix-append authorization_scheme (x ∷ token)) refl

module _ (sha256 : List ℕ → List ℕ) where
  unfoldable pub new : AdminToken → AdminAuthenticator
  new admin_token = record { expected_digest = sha256 admin_token.bytes }

  abbrev compare_digest : List ℕ → Option Text → Result AuthenticationError Authenticated
  compare_digest expected none = err invalid_bearer_credentials
  compare_digest expected (some token) =
      if text_eq expected (sha256 (as_bytes token))
      then ok authenticated
      else err invalid_bearer_credentials

  unfoldable pub authenticate :
      AdminAuthenticator → Option Text → Result AuthenticationError Authenticated
  unfolding supplied_token
  authenticate a authorization = compare_digest a.expected_digest (supplied_token authorization)

  -- A request is authenticated exactly when its `Authorization` value is `Bearer ` and a token that
  -- is not empty and has the digest of the administrator's token.
  pub admin_authenticate_iff :
      (admin_token : AdminToken) (authorization : Option Text)
      → (authenticate (new admin_token) authorization ≡ ok authenticated) ↔ (
          (token : Text) × (authorization ≡ some (authorization_scheme ++ token))
          × (token ≢ [])
          × (sha256 (as_bytes token) ≡ sha256 admin_token.bytes))
  unfolding authenticate new
  admin_authenticate_iff admin_token authorization = (
    λ h. elim (Option-cases (supplied_token authorization)) [
      | inl e ↦ ground (arith, e)
      | inr (token, e) ↦
          let (bearer, full) = supplied→bearer authorization token e in
          (
            token,
            bearer,
            full,
            ground (arith, e, text_eq_iff (sha256 admin_token.bytes) (sha256 (as_bytes token))),
          )
    ],
    λ (token, bearer, full, same).
        rw (bearer, bearer→supplied token full, same, text_eq_refl (sha256 admin_token.bytes)) refl,
  )
