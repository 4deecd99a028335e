-- ===== src/Auth/Validate/Oidc.antt =====
-- pkg/auth/auth.go: what an accepted OIDC token satisfies, and how often the key set is fetched.
use Prim.Native.String.{String, ◌++◌}
use text.Mathlib.TextEquality.{eq_iff}
use text.Mathlib.TextPositions.{starts_with-append}
use cloudbridge_client.Prelude.{
  ◌+◌, ◌≤◌, ◌≡◌, refl, arith, ◌⊎◌, inl, inr, true, none, some, ok, Option-cases,
}
use cloudbridge_client.Prelude.StringMap.{lookup}
use cloudbridge_client.Auth.{Token, Key, public, JwtLib, AuthManager, OidcConfig, string}
use cloudbridge_client.Auth.Claims.{validate_oidc_claims, check_issuer}
use cloudbridge_client.Auth.Keys.{Outside, refresh_jwks}
use cloudbridge_client.Auth.Validate.{kid_header, oidc_key, validate_oidc_token}

-- An issuer that only begins with the configured one passes the check, whatever follows.
issuer_lookalike : (url rest : String) → check_issuer url (some (string (url ++ rest))) ≡ none
unfolding check_issuer
issuer_lookalike url rest = rw (starts_with-append url rest) refl

module _ (jwt : JwtLib) (out : Outside jwt.Pub) where
  -- The key function answers only a key that the cache it leaves has under the token's `kid`.
  oidc_key_cached :
      (t : Token) (am : AuthManager jwt.Pub) {k : Key jwt.Pub}
      → (oidc_key jwt out t am).0 ≡ some k
      → (p : jwt.Pub) × (k ≡ public p)
        × (lookup (kid_header jwt out t) (oidc_key jwt out t am).1.jwks_cache ≡ some p)
        × ((t.alg ≡ "RS256") ⊎ (t.alg ≡ "ES256"))
  unfolding oidc_key
  oidc_key_cached t am h = ground (arith, eq_iff t.alg "RS256", eq_iff t.alg "ES256")

  fetches-oidc_key :
      (t : Token) (am : AuthManager jwt.Pub) → (oidc_key jwt out t am).1.fetches ≤ am.fetches + 1
  unfolding oidc_key refresh_jwks
  fetches-oidc_key t am = ground arith

  -- The token is valid, of an RSA or ECDSA method, signed with the key that the cache has for its `kid`
  -- after the call, and its claims pass.
  pub record IsTrusted (c : OidcConfig) (s : String) (t : Token) (am : AuthManager jwt.Pub)
      : Type 0 where
    pub valid : t.valid ≡ true
    pub method : (t.alg ≡ "RS256") ⊎ (t.alg ≡ "ES256")
    pub key : jwt.Pub
    pub cached : lookup (kid_header jwt out t) am.jwks_cache ≡ some key
    pub signed : jwt.Signed (public key) s
    pub claims : validate_oidc_claims c t.claims ≡ none

  -- An accepted OIDC token is valid, of one of the two methods, signed with the key that the cache
  -- has for its `kid` after the call, and its claims pass the checks.
  pub validate_oidc_token-IsTrusted :
      (c : OidcConfig) (s : String) (t : Token) (am am' : AuthManager jwt.Pub)
      → validate_oidc_token jwt out c s am ≡ (ok t, am')
      → IsTrusted c s t am'
  unfolding validate_oidc_token
  validate_oidc_token-IsTrusted c s t am am' h =
      elim (Option-cases (jwt.parse s (oidc_key jwt out) am).0) [
        | inl bad ↦ absurd (ground arith)
        | inr (u, good) ↦
            let e : u ≡ t = ground arith in
            let after : (jwt.parse s (oidc_key jwt out) am).1 ≡ am' = ground arith in
            let passed : validate_oidc_claims c u.claims ≡ none = ground arith in
            let (w, k, given, sig, same, state) = jwt.parse_signed s (oidc_key jwt out) am u good in
            let (p, is_key, cached, method) = oidc_key_cached w am given in
            rw (← e) (record {
              valid = rw same refl;
              method = rw same method;
              key = p;
              cached = rw (← after) (rw (state, same) cached);
              signed = rw (← is_key) sig;
              claims = passed;
            })
      ]

  -- A validation, accepted or not, fetches the key set at most once.
  pub oidc_fetches_once :
      (c : OidcConfig) (s : String) (am : AuthManager jwt.Pub)
      → (validate_oidc_token jwt out c s am).1.fetches ≤ am.fetches + 1
  unfolding validate_oidc_token
  oidc_fetches_once c s am = elim (jwt.parse_state s (oidc_key jwt out) am) [
    | inl same ↦ rw same (omega arith)
    | inr (u, moved) ↦ rw moved (fetches-oidc_key u am)
  ]
