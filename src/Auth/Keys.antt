-- ===== src/Auth/Keys.antt =====
-- pkg/auth/auth.go: the key set, its conversion and its cache.
use Prim.Native.String.{String}
use text.Mathlib.Text.{◌==◌ as str_eq}
use cloudbridge_client.Prelude.{
  ℕ, ◌+◌, ◌*◌, ◌%◌, ◌^◌, ◌==◌, Bool, true, false, Option, none, some, List, [], ◌∷◌, Result, ok,
  err, if◌then◌else◌,
}
use cloudbridge_client.Prelude.StringMap.{Map, insert}
use cloudbridge_client.RelayErrors.Contains.{Bytes}
use cloudbridge_client.Auth.{
  Jwk, AuthManager, AuthConfig, OidcConfig, Error, discovery_failed, no_jwks_uri, jwks_failed,
  secret_required, oidc_required, unsupported_kind,
}

-- What lies outside: base64 in its two alphabets, RSA keys from a modulus and an exponent (none if they
-- do not marshal), the discovery document's `jwks_uri` for an issuer, and the key set that a URL
-- answers to the request of that number.
pub record Outside (Pub : Type 0) : Type 0 where
  pub decode_std : String → Option Bytes
  pub decode_url : String → Option Bytes
  pub bytes_of : String → Bytes
  pub rsa_key : Bytes → ℕ → Option Pub
  pub discover : String → Option String
  pub key_set : ℕ → String → Option (List Jwk)

-- `eInt = (eInt << 8) | int(b)` over the bytes, as the bit pattern of an int.
unfoldable pub exponent : ℕ → Bytes → ℕ
exponent e [] = e
exponent e (b ∷ bs) = exponent ((e * 2 ^ 8 + b) % 2 ^ 64) bs

module _ {Pub : Type 0} (out : Outside Pub) where
  -- `jwkToPublicKey`; every error of a key is one and the same to its caller, which skips the key.
  unfoldable pub jwk_to_public_key : Jwk → Option Pub
  jwk_to_public_key k =
      if str_eq k.kty "RSA"
      then elim (out.decode_url k.n) [
        | none ↦ none
        | some n ↦ elim (out.decode_url k.e) [
          | none ↦ none
          | some e ↦ if exponent 0 e == 0 then none else out.rsa_key n (exponent 0 e)
        ]
      ]
      else none

  -- The loop of `refreshJWKS`: no key without a `kid`, and a later key of the same `kid` replaces.
  unfoldable pub cache_keys : List Jwk → Map Pub → Map Pub
  cache_keys [] m = m
  cache_keys (k ∷ ks) m = if str_eq k.kid "" then cache_keys ks m else elim (jwk_to_public_key k) [
    | none ↦ cache_keys ks m
    | some pub' ↦ cache_keys ks (insert k.kid pub' m)
  ]

  -- `refreshJWKS`: the cache is replaced only by a key set that came.
  unfoldable pub refresh_jwks : AuthManager Pub → AuthManager Pub × Bool
  refresh_jwks am =
      let am' = record am { fetches = am.fetches + 1 } in
      elim (out.key_set am.fetches am.jwks_url) [
        | none ↦ (am', false)
        | some ks ↦ (record am' { jwks_cache = cache_keys ks [] }, true)
      ]

  -- `setupOIDC`.
  unfoldable pub setup_oidc : OidcConfig → AuthManager Pub → Result Error (AuthManager Pub)
  setup_oidc c am =
      let load = λ (url : String).
        let (am', done) = refresh_jwks (record am { jwks_url = url }) in
        (if done then ok am' else err jwks_failed) in
      if str_eq c.jwks_url ""
      then elim (out.discover c.issuer_url) [
        | none ↦ err discovery_failed
        | some url ↦ if str_eq url "" then err no_jwks_uri else load url
      ]
      else load c.jwks_url

  -- `if decoded, err := ...; err == nil && len(decoded) > 0`, else the bytes as they are.
  unfoldable pub secret_bytes : String → Bytes
  secret_bytes s = elim (out.decode_std s) [ some (b ∷ bs) ↦ b ∷ bs | _ ↦ out.bytes_of s ]

  -- `NewAuthManager`.
  unfoldable pub new_auth_manager : AuthConfig → Result Error (AuthManager Pub)
  new_auth_manager c =
      let am : AuthManager Pub = record {
        config = c;
        jwt_secret = [];
        jwks_url = "";
        jwks_cache = [];
        fetches = 0;
      } in
      if str_eq c.kind "jwt"
      then if str_eq c.secret ""
        then err secret_required
        else ok (record am { jwt_secret = secret_bytes c.secret })
      else if str_eq c.kind "oidc"
      then elim c.oidc [
        | none ↦ err oidc_required
        | some o ↦ if str_eq o.issuer_url "" then err oidc_required else setup_oidc o am
      ]
      else err (unsupported_kind c.kind)
