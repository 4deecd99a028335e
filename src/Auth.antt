-- ===== src/Auth.antt =====
-- pkg/auth/auth.go: tokens, their claims, and the manager's configuration and key cache. The JWT
-- library, base64 and the HTTP requests are parameters.
use Prim.Native.String.{String}
use text.Mathlib.Text.{◌==◌ as str_eq}
use cloudbridge_client.Prelude.{
  ℕ, ◌≡◌, ◌⊎◌, Bool, true, false, Option, none, some, List, [], ◌∷◌, if◌then◌else◌,
}
use cloudbridge_client.Prelude.Int.{ℤ}
use cloudbridge_client.Prelude.StringMap.{Map}
use cloudbridge_client.RelayErrors.Contains.{Bytes}
pub mod Claims
pub mod Keys
pub mod Validate
pub mod Extract
pub mod Header

-- A decoded JSON value (`interface{}`). A number is a float64, by its integer part, which is all that
-- the package reads of it.
mutual
  pub data Json : Type 0 where
    null : Json
    boolean : Bool → Json
    number : ℤ → Json
    string : String → Json
    array : Jsons → Json
    object : Fields → Json

  pub data Jsons : Type 0 where
    end : Jsons
    item : Json → Jsons → Jsons

  pub data Fields : Type 0 where
    empty : Fields
    field : String → Json → Fields → Fields

-- A parsed token, as far as the package reads it: whether its method is one of the HMAC methods, the
-- method's name, the `kid` of the header, and its claims, if they are a `jwt.MapClaims`.
pub record Token : Type 0 where
  pub is_hmac : Bool
  pub alg : String
  pub kid : Option Json
  pub claims : Option Fields
  pub valid : Bool

pub data Key (Pub : Type 0) : Type 0 where
  secret : Bytes → Key Pub
  public : Pub → Key Pub

-- The JWT library. `parse` hands the parsed token to the key function, at most once, and answers a
-- token only if its signature verifies under the key that the function gave. `Signed k s` stands for
-- that: the signature of the string `s` verifies under `k`.
pub record JwtLib : Type 1 where
  pub Pub : Type 0
  pub parse_unverified : String → Option Token
  pub parse : {S : Type 0} → String → (Token → S → Option (Key Pub) × S) → S → Option Token × S
  pub Signed : Key Pub → String → Type 0
  pub parse_signed :
      {S : Type 0} (s : String) (f : Token → S → Option (Key Pub) × S) (st : S) (t : Token)
      → (parse s f st).0 ≡ some t
      → (u : Token) × (k : Key Pub) × ((f u st).0 ≡ some k)
        × Signed k s
        × (t ≡ record u { valid = true })
        × ((parse s f st).1 ≡ (f u st).1)
  pub parse_state :
      {S : Type 0} (s : String) (f : Token → S → Option (Key Pub) × S) (st : S)
      → ((parse s f st).1 ≡ st) ⊎ ((u : Token) × ((parse s f st).1 ≡ (f u st).1))

-- `OIDCConfig` and `AuthConfig`.
pub record OidcConfig : Type 0 where
  pub issuer_url : String
  pub audience : String
  pub jwks_url : String

pub record AuthConfig : Type 0 where
  pub kind : String
  pub secret : String
  pub fallback_secret : String
  pub skip_validation : Bool
  pub oidc : Option OidcConfig

-- `JWK`, the fields that are read.
pub record Jwk : Type 0 where
  pub kid : String
  pub kty : String
  pub n : String
  pub e : String

pub data ClaimsError : Type 0 where
  wrong_claims_type no_audience : ClaimsError
  invalid_issuer invalid_audience : String → ClaimsError

pub data Error : Type 0 where
  secret_required oidc_required : Error
  discovery_failed no_jwks_uri jwks_failed : Error
  unsupported_kind : String → Error
  parse_failed jwt_invalid oidc_invalid : Error
  invalid_claims : ClaimsError → Error
  no_subject no_claims empty_header bad_header : Error

-- `AuthManager`; `fetches` counts the requests for the key set.
pub record AuthManager (Pub : Type 0) : Type 0 where
  pub config : AuthConfig
  pub jwt_secret : Bytes
  pub jwks_url : String
  pub jwks_cache : Map Pub
  pub fetches : ℕ
