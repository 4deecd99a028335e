-- ===== src/Auth/Validate.antt =====
-- pkg/auth/auth.go: `ValidateToken`, with HMAC secrets and with the keys of an OIDC provider.
use Prim.Native.String.{String}
use text.Mathlib.Text.{◌==◌ as str_eq}
use cloudbridge_client.Prelude.{
  ℕ, Bool, true, false, ◌&&◌, ◌||◌, not, Option, none, some, List, [], ◌∷◌, ◌++◌, Result, ok, err,
  if◌then◌else◌,
}
use cloudbridge_client.Prelude.StringMap.{lookup}
use cloudbridge_client.RelayErrors.Contains.{Bytes}
use cloudbridge_client.Auth.{
  Json, string, Token, Key, secret, public, JwtLib, AuthManager, AuthConfig, OidcConfig, Error,
  parse_failed, jwt_invalid, oidc_invalid, invalid_claims, unsupported_kind,
}
use cloudbridge_client.Auth.Claims.{as_text, validate_oidc_claims}
use cloudbridge_client.Auth.Keys.{Outside, refresh_jwks}
pub mod Hmac
pub mod Oidc

module _ (jwt : JwtLib) (out : Outside jwt.Pub) where
  -- `addSecretCandidates`: the decoded secret, if it decodes to something, and then the raw one.
  unfoldable pub secret_candidates : String → List Bytes
  secret_candidates s = if str_eq s "" then [] else elim (out.decode_std s) [
    | some (b ∷ bs) ↦ (b ∷ bs) ∷ out.bytes_of s ∷ []
    | _ ↦ out.bytes_of s ∷ []
  ]

  -- Whether the unverified header names the fallback key and there is one.
  unfoldable pub wants_fallback : AuthConfig → String → Bool
  wants_fallback c s = elim (jwt.parse_unverified s) [
    | none ↦ false
    | some t ↦ elim (as_text t.kid) [
      | none ↦ false
      | some kid ↦ str_eq kid "fallback-key" && not (str_eq c.fallback_secret "")
    ]
  ]

  -- `if len(candidates) == 0 { addSecretCandidates(am.config.Secret) }`
  abbrev pub or_primary : List Bytes → List Bytes → List Bytes
  or_primary [] primary = primary
  or_primary (k ∷ ks) primary = k ∷ ks

  unfoldable pub candidates : AuthConfig → String → List Bytes
  candidates c s =
      or_primary (if wants_fallback c s then secret_candidates c.fallback_secret else [])
        (secret_candidates c.secret)

  -- The key function of `validateJWTToken`.
  abbrev pub hmac_key : Bytes → Token → Unit {0} → Option (Key jwt.Pub) × Unit {0}
  hmac_key key t st = (if t.is_hmac then some (secret key) else none, st)

  -- The loop over the candidates.
  unfoldable pub try_candidates : String → List Bytes → Option Token
  try_candidates s [] = none
  try_candidates s (key ∷ keys) = elim (jwt.parse s (hmac_key key) tt).0 [
    | none ↦ try_candidates s keys
    | some t ↦ elim t.valid [ true ↦ some t | false ↦ try_candidates s keys ]
  ]

  -- `validateJWTToken`; in the mode without validation the token is marked as not valid.
  unfoldable pub validate_jwt_token : AuthConfig → String → Result Error Token
  validate_jwt_token c s =
      if c.skip_validation
      then elim (jwt.parse_unverified s) [
        | none ↦ err parse_failed
        | some t ↦ ok (record t { valid = false })
      ]
      else elim (try_candidates s (candidates c s)) [ none ↦ err jwt_invalid | some t ↦ ok t ]

  -- `kidHeader, _ := token.Header["kid"].(string)`
  abbrev pub kid_header : Token → String
  kid_header t = elim (as_text t.kid) [ none ↦ "" | some kid ↦ kid ]

  abbrev pub as_key : Option jwt.Pub → Option (Key jwt.Pub)
  as_key none = none
  as_key (some p) = some (public p)

  -- The key function of `validateOIDCToken`: the cached key of the `kid` or, after one refresh, the
  -- fresh one.
  unfoldable pub oidc_key : Token → AuthManager jwt.Pub → Option (Key jwt.Pub) × AuthManager jwt.Pub
  oidc_key t am =
      if str_eq t.alg "RS256" || str_eq t.alg "ES256"
      then elim (lookup (kid_header t) am.jwks_cache) [
        | some p ↦ (some (public p), am)
        | none ↦
            let (am', done) = refresh_jwks out am in
            (if done then as_key (lookup (kid_header t) am'.jwks_cache) else none, am')
      ]
      else (none, am)

  -- `validateOIDCToken`; the OIDC configuration is there, or the manager would not have been made.
  unfoldable pub validate_oidc_token :
      OidcConfig → String → AuthManager jwt.Pub → Result Error Token × AuthManager jwt.Pub
  validate_oidc_token c s am =
      let (parsed, am') = jwt.parse s oidc_key am in
      (
        elim parsed [
          | none ↦ err oidc_invalid
          | some t ↦
              if t.valid
              then elim (validate_oidc_claims c t.claims) [
                | some e ↦ err (invalid_claims e)
                | none ↦ ok t
              ]
              else err oidc_invalid
        ],
        am',
      )

  -- `ValidateToken`.
  unfoldable pub validate_token :
      String → AuthManager jwt.Pub → Result Error Token × AuthManager jwt.Pub
  validate_token s am =
      if str_eq am.config.kind "jwt"
      then (validate_jwt_token am.config s, am)
      else if str_eq am.config.kind "oidc"
      then elim am.config.oidc [
        | none ↦ (err oidc_invalid, am)
        | some c ↦ validate_oidc_token c s am
      ]
      else (err (unsupported_kind am.config.kind), am)
