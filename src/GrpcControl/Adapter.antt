-- ===== src/GrpcControl/Adapter.antt =====
-- pkg/relay/transport/transport.go and pkg/relay/transport_adapter.go: the transport manager and the adapter
-- that the relay client uses, with the client's choice between the two protocols.
use Prim.Native.String.{String}
use text.Mathlib.Text.{◌==◌ as str_eq}
use cloudbridge_client.Prelude.{
  Bool, true, false, Option, none, some, List, [], ◌∷◌, Result, ok, err, if◌then◌else◌,
}
use cloudbridge_client.Prelude.Int.{ℤ}
use cloudbridge_client.Configuration.Addresses.{TextLib}
use cloudbridge_client.GrpcControl.{
  Mode, json, grpc, mode_name, same_mode, HelloResult, HeartbeatResult, Network, Settings, Error,
  panicked, not_ok, unsupported, Client, new_client, disconnect, close, connect, hello,
  authenticate, create_tunnel, send_heartbeat,
}

-- `TransportManager`. `jsonTransport` is left out: nothing sets it.
pub record Manager : Type 0 where
  pub current_mode : Mode
  pub grpc_transport : Option Client

unfoldable pub new_manager : Manager
new_manager = record { current_mode = grpc; grpc_transport = none }

-- `Initialize`.
unfoldable pub initialize : Manager → Manager
initialize m = record m { grpc_transport = some new_client }

-- `GetTransport` is the gRPC transport in every mode; a nil pointer in an interface is not nil.
unfoldable pub on_transport :
    {A : Type 0} → (Client → Result Error A × Client) → Manager → Result Error A × Manager
on_transport f m = elim m.grpc_transport [
  | none ↦ (err panicked, m)
  | some c ↦ let (r, c') = f c in (r, record m { grpc_transport = some c' })
]

-- `SwitchTransport`.
unfoldable pub switch_transport : Mode → Manager → Option Error × Manager
switch_transport mode m = if same_mode m.current_mode mode then (none, m) else elim m.current_mode [
  | json ↦ (none, record m { current_mode = mode })
  | grpc ↦ elim m.grpc_transport [
    | none ↦ (some panicked, m)
    | some c ↦ (
      none,
      record {
        current_mode = mode;
        grpc_transport = some (if c.connected then disconnect c else c);
      },
    )
  ]
]

-- `Close` of the manager.
unfoldable pub close_manager : Manager → Manager
close_manager m = elim m.grpc_transport [
  | none ↦ m
  | some c ↦ record m { grpc_transport = some (close c) }
]

-- The adapter: `SetTransportMode`, and the calls that ask for the status "ok".
unfoldable pub set_transport_mode : String → Manager → Option Error × Manager
set_transport_mode mode m =
    if str_eq mode "grpc"
    then switch_transport grpc m
    else if str_eq mode "json"
    then switch_transport json m
    else (some (unsupported mode), m)

abbrev pub only_ok :
    {A B : Type 0} → (A → String) → (A → String) → (A → B) → Result Error A → Result Error B
only_ok status message use' (err e) = err e
only_ok status message use' (ok a) =
    if str_eq (status a) "ok" then ok (use' a) else err (not_ok (message a))

module _ (net : Network) where
  unfoldable pub adapter_hello : String → List String → Manager → Result Error HelloResult × Manager
  adapter_hello version features m =
      let (r, m') = on_transport (hello net version features) m in
      (only_ok (λ a. a.status) (λ a. a.error_message) (λ a. a) r, m')

  -- The client's id and the tenant's.
  unfoldable pub adapter_authenticate : String → Manager → Result Error (String × String) × Manager
  adapter_authenticate token m =
      let (r, m') = on_transport (authenticate net token) m in
      (only_ok (λ a. a.status) (λ a. a.error_message) (λ a. (a.client_id, a.tenant_id)) r, m')

  unfoldable pub adapter_create_tunnel :
      String → String → ℤ → String → ℤ → Manager → Result Error String × Manager
  adapter_create_tunnel id tenant local host port m =
      let (r, m') = on_transport (create_tunnel net id tenant local host port) m in
      (only_ok (λ a. a.status) (λ a. a.error_message) (λ a. a.endpoint) r, m')

  unfoldable pub adapter_send_heartbeat :
      String → String → Manager → Result Error HeartbeatResult × Manager
  adapter_send_heartbeat client tenant m =
      let (r, m') = on_transport (send_heartbeat net client tenant m.current_mode) m in
      (only_ok (λ a. a.status) (λ a. a.error_message) (λ a. a) r, m')

-- `Connect` and `Disconnect` of the adapter.
unfoldable pub adapter_connect : TextLib → Network → Settings → Manager → Option Error × Manager
adapter_connect lib net s m = elim m.grpc_transport [
  | none ↦ (some panicked, m)
  | some c ↦ let (e, c') = connect lib net s c in (e, record m { grpc_transport = some c' })
]

unfoldable pub adapter_disconnect : Manager → Option Error × Manager
adapter_disconnect m = elim m.grpc_transport [
  | none ↦ (some panicked, m)
  | some c ↦ (none, record m { grpc_transport = some (disconnect c) })
]

-- The relay client's `SetTransportMode` and `GetCurrentTransportMode`, on whether it uses the adapter.
unfoldable pub set_client_mode : String → Bool → Manager → Option Error × Bool × Manager
set_client_mode mode uses m =
    let (e, m') = set_transport_mode "grpc" m in
    if str_eq mode "grpc"
    then (e, true, m')
    else if str_eq mode "json"
    then (none, false, m)
    else (some (unsupported mode), uses, m)

unfoldable pub get_current_transport_mode : Bool → Manager → String
get_current_transport_mode uses m = if uses then mode_name m.current_mode else "json"

-- The calls on an adapter, and a run of them.
pub data Op : Type 0 where
  op_connect op_disconnect op_close : Op
  op_mode : String → Op
  op_hello : String → List String → Op
  op_authenticate : String → Op
  op_tunnel : String → String → ℤ → String → ℤ → Op
  op_heartbeat : String → String → Op

module _ (lib : TextLib) (net : Network) (s : Settings) where
  unfoldable pub step : Op → Manager → Manager
  step op_connect m = (adapter_connect lib net s m).1
  step op_disconnect m = (adapter_disconnect m).1
  step op_close m = close_manager m
  step (op_mode mode) m = (set_transport_mode mode m).1
  step (op_hello version features) m = (adapter_hello net version features m).1
  step (op_authenticate token) m = (adapter_authenticate net token m).1
  step (op_tunnel id tenant local host port) m =
      (adapter_create_tunnel net id tenant local host port m).1
  step (op_heartbeat client tenant) m = (adapter_send_heartbeat net client tenant m).1

  unfoldable pub run : List Op → Manager → Manager
  run [] m = m
  run (op ∷ ops) m = run ops (step op m)
