-- ===== src/Tests/Auths.antt =====
-- pkg/auth: a JWT library that accepts the strings it knows, tokens of both kinds, and a header.
use Prim.Native.String as String
use Prim.Native.String.{String}
use text.Mathlib.Text.{◌==◌ as str_eq}
use cloudbridge_client.Prelude.{
  ℕ, ◌+◌, ◌≤◌, ◌≡◌, ◌↔◌, refl, arith, ◌⊎◌, inr, true, false, Option, none, some, [], ◌∷◌, ok,
  if◌then◌else◌,
}
use cloudbridge_client.Prelude.StringMap.{lookup, insert}
use cloudbridge_client.RelayErrors.Contains.{Bytes}
use cloudbridge_client.RelayErrors.Codes.{bytes}
use cloudbridge_client.Auth.{
  string, object, Fields, empty, field, Token, Key, secret, JwtLib, OidcConfig, AuthConfig,
  AuthManager,
}
use cloudbridge_client.Auth.Claims.{get, validate_oidc_claims, check_audience, check_issuer}
use cloudbridge_client.Auth.Keys.{Outside, exponent, jwk_to_public_key, cache_keys, refresh_jwks}
use cloudbridge_client.Auth.Validate.{
  secret_candidates, wants_fallback, candidates, try_candidates, validate_jwt_token, oidc_key,
  validate_oidc_token,
}
use cloudbridge_client.Auth.Validate.Hmac.{jwt_token_signed, OneOf}
use cloudbridge_client.Auth.Validate.Oidc.{
  validate_oidc_token-IsTrusted, oidc_fetches_once, IsTrusted,
}
use cloudbridge_client.Auth.Extract.{
  extract_connection_type, map_connection_type, connection_type_known,
}
use cloudbridge_client.Auth.Header.{get_token_from_header, has_space, header_token_iff}

-- Two tokens: `a.b.c` is signed by HMAC, any other string by a provider's key.
abbrev pub claims : Fields
claims = field "sub" (string "peer") (
    field "iss" (string "https://idp") (
      field "connection_type" (string "wireguard")
        (field "quic_config" (object (field "public_key" (string "pk") empty)) empty)))

abbrev pub hmac_token : Token
hmac_token = record {
  is_hmac = true;
  alg = "HS256";
  kid = none;
  claims = some claims;
  valid = true;
}

abbrev pub rsa_token : Token
rsa_token = record {
  is_hmac = false;
  alg = "RS256";
  kid = some (string "k1");
  claims = some claims;
  valid = true;
}

abbrev pub token_of : String → Token
token_of s = if str_eq s "a.b.c" then hmac_token else rsa_token

-- A library for which every signature verifies.
abbrev pub accept : {Pub : Type 0} → Token → Option (Key Pub) → Option Token
accept t none = none
accept t (some k) = some (record t { valid = true })

pub accept_given :
    {Pub : Type 0} (u t : Token) (k : Option (Key Pub))
    → accept u k ≡ some t
    → (k' : Key Pub) × (k ≡ some k') × (t ≡ record u { valid = true })
accept_given u t none h = absurd (ground arith)
accept_given u t (some k) h = (k, refl, ground arith)

abbrev pub lib : JwtLib
lib = record {
  Pub = ℕ;
  parse_unverified = λ s. some (token_of s);
  parse = λ {S} s f st. (accept (token_of s) (f (token_of s) st).0, (f (token_of s) st).1);
  Signed = λ k s. Unit {0};
  parse_signed = λ {S} s f st t h.
      let (k, given, same) = accept_given (token_of s) t (f (token_of s) st).0 h in
      (token_of s, k, given, tt, same, refl);
  parse_state = λ {S} s f st. inr (token_of s, refl);
}

abbrev pub outside : Outside ℕ
outside = record {
  decode_std = λ s. none;
  decode_url = λ s. some (3 ∷ []);
  bytes_of = bytes;
  rsa_key = λ n e. some (e + 7);
  discover = λ s. some "https://idp/keys";
  key_set = λ n url. some (record { kid = "k1"; kty = "RSA"; n = "AQ"; e = "Aw" } ∷ []);
}

abbrev pub config : AuthConfig
config = record {
  kind = "jwt";
  secret = "key";
  fallback_secret = "";
  skip_validation = false;
  oidc = none;
}

validate_accepts : validate_jwt_token lib outside config "a.b.c" ≡ ok hmac_token
unfolding validate_jwt_token try_candidates candidates wants_fallback secret_candidates bytes
validate_accepts = refl

jwt_token_signed_example :
    (hmac_token.is_hmac ≡ true)
    × (hmac_token.valid ≡ true)
    × ((k : Bytes) × lib.Signed (secret k) "a.b.c"
        × ((OneOf k (secret_candidates lib outside config.fallback_secret)
              × (wants_fallback lib outside config "a.b.c" ≡ true))
            ⊎ OneOf k (secret_candidates lib outside config.secret)))
jwt_token_signed_example =
    jwt_token_signed lib outside config "a.b.c" hmac_token refl validate_accepts

abbrev idp : OidcConfig
idp = record { issuer_url = "https://idp"; audience = "client"; jwks_url = "" }

abbrev before : AuthManager ℕ
before = record {
  config = record config { kind = "oidc"; oidc = some idp };
  jwt_secret = [];
  jwks_url = "https://idp/keys";
  jwks_cache = [];
  fetches = 1;
}

-- The key set has been fetched again, for `k1`.
abbrev after : AuthManager ℕ
after = record before { jwks_cache = ("k1", 10) ∷ []; fetches = 2 }

oidc_accepts : validate_oidc_token lib outside idp "x.y.z" before ≡ (ok rsa_token, after)
unfolding validate_oidc_token oidc_key refresh_jwks cache_keys jwk_to_public_key exponent lookup
    insert validate_oidc_claims get check_issuer check_audience
oidc_accepts = refl

validate_oidc_token-IsTrusted_example : IsTrusted lib outside idp "x.y.z" rsa_token after
validate_oidc_token-IsTrusted_example =
    validate_oidc_token-IsTrusted lib outside idp "x.y.z" rsa_token before after oidc_accepts

oidc_fetches_once_example :
    (validate_oidc_token lib outside idp "x.y.z" before).1.fetches ≤ before.fetches + 1
oidc_fetches_once_example = oidc_fetches_once lib outside idp "x.y.z" before

abbrev mesh : String
mesh = "p2p-mesh"

connection_type : extract_connection_type hmac_token ≡ ok "p2p-mesh"
unfolding extract_connection_type map_connection_type get
connection_type = refl

connection_type_known_example :
    (mesh ≡ "p2p-mesh") ⊎ ((mesh ≡ "client-server") ⊎ (mesh ≡ "server-server"))
connection_type_known_example = connection_type_known hmac_token mesh connection_type

header_token_iff_example :
    (get_token_from_header "Bearer a.b.c" ≡ ok "a.b.c")
    ↔ (("Bearer a.b.c" ≡ String.◌++◌ "Bearer " "a.b.c") × (has_space "a.b.c" ≡ false))
header_token_iff_example = header_token_iff "Bearer a.b.c" "a.b.c"
