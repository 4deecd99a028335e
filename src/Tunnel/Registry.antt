-- ===== src/Tunnel/Registry.antt =====
-- pkg/tunnel/manager.go: `Manager` and its operations on the map of tunnels. A tunnel's proxy
-- goroutine, its pool and its statistics are in the modules beside this one.
use Prim.Native.String.{String}
use text.Mathlib.Text.{◌==◌ as str_eq}
use cloudbridge_client.Prelude.{
  ℕ, zero, suc, ◌+◌, Bool, true, false, ◌&&◌, ◌||◌, Option, none, some, is_some, List, [], ◌∷◌,
  Result, ok, err, length, if◌then◌else◌,
}
use cloudbridge_client.Prelude.Int.{ℤ, pos, leb_ℤ, ltb_ℤ, eqb_ℤ}
use cloudbridge_client.Prelude.Time.{Time}
use cloudbridge_client.Prelude.StringMap.{Map, lookup, insert, delete}
pub mod Invariant
pub mod Branches

-- `Tunnel`, the configuration and the flag that its proxy loop reads.
pub record Tunnel : Type 0 where
  pub id : String
  pub local_port : ℤ
  pub remote_host : String
  pub remote_port : ℤ
  pub relay_endpoint : String
  pub active : Bool
  pub created_at : Time

abbrev pub Manager : Type 0
Manager = Map Tunnel

pub data Error : Type 0 where
  invalid_local_port invalid_remote_port port_in_use : ℤ → Error
  empty_remote_host : Error
  already_exists not_found : String → Error

unfoldable pub new_manager : Manager
new_manager = []

-- The loop of `isPortInUse` over the tunnels.
unfoldable pub taken : ℤ → Manager → Bool
taken port [] = false
taken port ((k, t) ∷ m) = (eqb_ℤ t.local_port port && t.active) || taken port m

-- `isPortInUse`; `bindable` is whether `net.Listen` on the port succeeds just now.
unfoldable pub is_port_in_use : (ℤ → Bool) → ℤ → Manager → Bool
is_port_in_use bindable port m =
    if taken port m then true else if bindable port then false else true

-- `port <= 0 || port > 65535`
abbrev pub bad_port : ℤ → Bool
bad_port port = leb_ℤ port (pos 0) || ltb_ℤ (pos 65535) port

-- `validateTunnelParams`.
unfoldable pub validate_tunnel_params : (ℤ → Bool) → ℤ → String → ℤ → Manager → Option Error
validate_tunnel_params bindable local_port remote_host remote_port m =
    if bad_port local_port
    then some (invalid_local_port local_port)
    else if str_eq remote_host ""
    then some empty_remote_host
    else if bad_port remote_port
    then some (invalid_remote_port remote_port)
    else if is_port_in_use bindable local_port m
    then some (port_in_use local_port)
    else none

-- `RegisterTunnelWithEndpoint`, up to the start of the proxy goroutine.
unfoldable pub register_tunnel_with_endpoint :
    (ℤ → Bool) → Time → String → ℤ → String → ℤ → String → Manager → Manager × Option Error
register_tunnel_with_endpoint bindable now id local_port remote_host remote_port endpoint m =
    elim (validate_tunnel_params bindable local_port remote_host remote_port m) [
      | some e ↦ (m, some e)
      | none ↦ if is_some (lookup id m) then (m, some (already_exists id)) else (
        insert id
            (record {
              id = id;
              local_port = local_port;
              remote_host = remote_host;
              remote_port = remote_port;
              relay_endpoint = endpoint;
              active = true;
              created_at = now;
            })
            m,
        none,
      )
    ]

-- `RegisterTunnel`: no relay endpoint.
unfoldable pub register_tunnel :
    (ℤ → Bool) → Time → String → ℤ → String → ℤ → Manager → Manager × Option Error
register_tunnel bindable now id local_port remote_host remote_port m =
    register_tunnel_with_endpoint bindable now id local_port remote_host remote_port "" m

-- `UnregisterTunnel`: the map without the tunnel, and the tunnel that its proxy loop still shares,
-- which is no longer active.
unfoldable pub unregister_tunnel : String → Manager → Manager × Result Error Tunnel
unregister_tunnel id m = elim (lookup id m) [
  | none ↦ (m, err (not_found id))
  | some t ↦ (delete id m, ok (record t { active = false }))
]

-- `GetTunnel`.
unfoldable pub get_tunnel : String → Manager → Option Tunnel
get_tunnel id m = lookup id m

-- `ListTunnels`, in the order of the association list (Go's order is not fixed).
unfoldable pub list_tunnels : Manager → List Tunnel
list_tunnels [] = []
list_tunnels ((k, t) ∷ m) = t ∷ list_tunnels m

-- The count of `GetTunnelStats`.
unfoldable pub active_count : Manager → ℕ
active_count [] = 0
active_count ((k, t) ∷ m) = if t.active then suc (active_count m) else active_count m

-- `GetTunnelStats`: `total_tunnels` and `active_tunnels`.
unfoldable pub get_tunnel_stats : Manager → ℕ × ℕ
get_tunnel_stats m = (length m, active_count m)
