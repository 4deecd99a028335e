-- ===== src/Configuration.antt =====
-- pkg/config/config.go and the parts of pkg/types/types.go that it checks: the configuration and its
-- validation. Whether a file is missing is an argument.
use Prim.Native.String
use Prim.Native.String.{String}
use Prim.Native.Char.{Char, code}
use text.Mathlib.Text.{◌==◌ as str_eq}
use cloudbridge_client.Prelude.{
  ℕ, suc, ◌+◌, ◌==◌, ltb, leb, Bool, true, false, ◌&&◌, ◌||◌, not, Option, none, some,
  if◌then◌else◌,
}
use cloudbridge_client.Prelude.Int.{ℤ, pos, ltb_ℤ, leb_ℤ}
pub mod Valid
pub mod Environment
pub mod Watcher
pub mod Addresses

-- The parts of `Config` that are checked or watched. The backoff multiplier, a float64, is given by
-- whether it is above 0; `rest` stands for every field that is neither checked nor watched.
pub record Tls : Type 0 where
  pub enabled : Bool
  pub min_version : String
  pub verify_cert : Bool
  pub ca_cert : String
  pub client_cert : String
  pub client_key : String

pub record Relay : Type 0 where
  pub host : String
  pub port : ℤ
  pub tls : Tls

pub record Auth : Type 0 where
  pub kind : String
  pub secret : String
  pub issuer_url : String
  pub audience : String

pub record WireGuard : Type 0 where
  pub enabled : Bool
  pub interface_name : String
  pub mtu : ℤ

pub record Config (Rest : Type 0) : Type 0 where
  pub relay : Relay
  pub auth : Auth
  pub max_retries : ℤ
  pub multiplier_positive : Bool
  pub wireguard : WireGuard
  pub logging_level : String
  pub api_base_url : String
  pub rest : Rest

pub data ConfigError : Type 0 where
  no_relay_host bad_relay_port bad_tls_version ca_cert_missing no_client_key no_client_cert :
      ConfigError
  no_jwt_secret no_issuer_url no_audience bad_max_retries bad_multiplier bad_interface_name
        bad_mtu :
      ConfigError

-- `[a-zA-Z0-9_\-]`
unfoldable pub is_name_char : ℕ → Bool
is_name_char c =
    (leb b'a' c && leb c b'z')
    || (leb b'A' c && leb c b'Z')
    || (leb b'0' c && leb c b'9')
    || c == b'_'
    || c == b'-'

unfoldable pub all_name_chars : String → Bool
all_name_chars String.[] = true
all_name_chars (String.◌∷◌ c s) = is_name_char (code c) && all_name_chars s

-- The length, which is the one in bytes for a name that the pattern lets pass.
unfoldable pub name_length : String → ℕ
name_length String.[] = 0
name_length (String.◌∷◌ c s) = suc (name_length s)

-- Whether `ValidateInterfaceName` finds no error.
unfoldable pub validate_interface_name : String → Bool
validate_interface_name name =
    if name_length name == 0 || ltb 15 (name_length name) then false else all_name_chars name

-- The checks of `validateConfig` on the WireGuard part.
unfoldable pub validate_wireguard : WireGuard → Option ConfigError
validate_wireguard w =
    if not w.enabled
    then none
    else if not (validate_interface_name w.interface_name)
    then some bad_interface_name
    else if ltb_ℤ (pos 0) w.mtu && (ltb_ℤ w.mtu (pos 500) || ltb_ℤ (pos 9000) w.mtu)
    then some bad_mtu
    else none

-- Those on the authentication.
unfoldable pub validate_auth : Auth → Option ConfigError
validate_auth a =
    if str_eq a.kind "jwt" && str_eq a.secret ""
    then some no_jwt_secret
    else if str_eq a.kind "oidc" && str_eq a.issuer_url ""
    then some no_issuer_url
    else if str_eq a.kind "oidc" && str_eq a.audience ""
    then some no_audience
    else none

-- Those on TLS.
unfoldable pub validate_tls : (String → Bool) → Tls → Option ConfigError
validate_tls missing t =
    if not t.enabled
    then none
    else if not (str_eq t.min_version "1.3")
    then some bad_tls_version
    else if not (str_eq t.ca_cert "") && missing t.ca_cert
    then some ca_cert_missing
    else if not (str_eq t.client_cert "") && str_eq t.client_key ""
    then some no_client_key
    else if not (str_eq t.client_key "") && str_eq t.client_cert ""
    then some no_client_cert
    else none

abbrev pub or_else : Option ConfigError → Option ConfigError → Option ConfigError
or_else (some e) next = some e
or_else none next = next

-- `validateConfig`: the first error, in the order of the code.
unfoldable pub validate_config :
    {Rest : Type 0} → (String → Bool) → Config Rest → Option ConfigError
validate_config missing c =
    if str_eq c.relay.host ""
    then some no_relay_host
    else if leb_ℤ c.relay.port (pos 0) || ltb_ℤ (pos 65535) c.relay.port
    then some bad_relay_port
    else or_else (validate_tls missing c.relay.tls) (
        or_else (validate_auth c.auth) (
          if ltb_ℤ c.max_retries (pos 0)
          then some bad_max_retries
          else if not c.multiplier_positive
          then some bad_multiplier
          else validate_wireguard c.wireguard))
