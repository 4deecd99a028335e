-- ===== src/Configuration/Valid.antt =====
-- pkg/config/config.go: the configurations that `validateConfig` lets pass.
use Prim.Native.String.{String}
use text.Mathlib.TextEquality.{eq_iff}
use cloudbridge_client.Prelude.{◌≤◌, ◌≡◌, ◌≢◌, ◌↔◌, arith, ◌⊎◌, Bool, true, false, none}
use cloudbridge_client.Prelude.Int.{pos, ◌≤ℤ◌}
use cloudbridge_client.Configuration.{
  Tls, Auth, WireGuard, Config, all_name_chars, name_length, validate_interface_name,
  validate_wireguard, validate_auth, validate_tls, validate_config,
}

-- Enabled TLS is version 1.3, with a CA file that is there, and a client certificate and a key together
-- or neither.
abbrev pub IsTls : (String → Bool) → Tls → Type 0
IsTls missing t =
    (t.enabled ≡ false)
    ⊎ ((t.min_version ≡ "1.3")
        × ((t.ca_cert ≡ "") ⊎ (missing t.ca_cert ≡ false))
        × ((t.client_cert ≡ "") ↔ (t.client_key ≡ "")))

abbrev pub IsAuth : Auth → Type 0
IsAuth a =
    ((a.kind ≢ "jwt") ⊎ (a.secret ≢ ""))
    × ((a.kind ≢ "oidc") ⊎ ((a.issuer_url ≢ "") × (a.audience ≢ "")))

-- A name of 1 to 15 letters, digits, underscores and hyphens.
abbrev pub IsInterfaceName : String → Type 0
IsInterfaceName name =
    (1 ≤ name_length name) × (name_length name ≤ 15) × (all_name_chars name ≡ true)

abbrev pub IsWireGuard : WireGuard → Type 0
IsWireGuard w =
    (w.enabled ≡ false)
    ⊎ (IsInterfaceName w.interface_name
        × ((w.mtu ≤ℤ pos 0) ⊎ ((pos 500 ≤ℤ w.mtu) × (w.mtu ≤ℤ pos 9000))))

-- What `validateConfig` asks of a configuration.
abbrev pub IsValid : {Rest : Type 0} → (String → Bool) → Config Rest → Type 0
IsValid missing c =
    (c.relay.host ≢ "")
    × (pos 1 ≤ℤ c.relay.port)
    × (c.relay.port ≤ℤ pos 65535)
    × IsTls missing c.relay.tls
    × IsAuth c.auth
    × (pos 0 ≤ℤ c.max_retries)
    × (c.multiplier_positive ≡ true)
    × IsWireGuard c.wireguard

IsTls-iff : (missing : String → Bool) (t : Tls) → (validate_tls missing t ≡ none) ↔ IsTls missing t
unfolding validate_tls
IsTls-iff missing t = ground (
  arith,
  eq_iff t.min_version "1.3",
  eq_iff t.ca_cert "",
  eq_iff t.client_cert "",
  eq_iff t.client_key "",
)

IsAuth-iff : (a : Auth) → (validate_auth a ≡ none) ↔ IsAuth a
unfolding validate_auth
IsAuth-iff a = ground (
  arith,
  eq_iff a.kind "jwt",
  eq_iff a.kind "oidc",
  eq_iff a.secret "",
  eq_iff a.issuer_url "",
  eq_iff a.audience "",
)

IsWireGuard-iff : (w : WireGuard) → (validate_wireguard w ≡ none) ↔ IsWireGuard w
unfolding validate_wireguard validate_interface_name
IsWireGuard-iff w = ground arith

-- A configuration passes validateConfig exactly when its relay has a host and a port in 1..65535, TLS is
-- off or is version 1.3 with a CA file that is not missing and a client certificate and key together or
-- neither, a JWT mode has a secret, an OIDC mode an issuer and an audience, the retries are not below 0,
-- the multiplier is above 0, and WireGuard is off or has an interface name of 1 to 15 letters, digits,
-- underscores and hyphens, and an MTU that is not set or in 500..9000.
pub validate_config_iff :
    {Rest : Type 0} (missing : String → Bool) (c : Config Rest)
    → (validate_config missing c ≡ none) ↔ IsValid missing c
unfolding validate_config
validate_config_iff missing c =
    let tls = IsTls-iff missing c.relay.tls in
    let auth = IsAuth-iff c.auth in
    let wireguard = IsWireGuard-iff c.wireguard in ground (arith, eq_iff c.relay.host "")
