-- ===== src/RelayClient/Tunnels.antt =====
-- pkg/relay/client.go: `CreateTunnel`, over the registry of pkg/tunnel/manager.go. It holds its lock to
-- the end and asks for no other.
use Prim.Native.String.{String}
use text.Mathlib.Text.{◌==◌ as str_eq}
use text.Mathlib.TextEquality.{eq_iff}
use cloudbridge_client.Prelude.{
  ◌≡◌, ◌≢◌, refl, arith, ◌⊎◌, inl, inr, Bool, true, false, not, Bool-cases, Option, none, some,
  Option-cases, Result, ok, err, if◌then◌else◌,
}
use cloudbridge_client.Prelude.Int.{ℤ}
use cloudbridge_client.Auth.{Fields}
use cloudbridge_client.Tunnel.Registry as Registry
use cloudbridge_client.Tunnel.Registry.{Manager, register_tunnel_with_endpoint, register_tunnel}
use cloudbridge_client.RelayClient.{Client, World, is_type, status_error}

pub data CreateError : Type 0 where
  not_connected adapter_failed empty_endpoint not_sent no_response unexpected_type : CreateError
  refused : String → CreateError
  not_registered : Registry.Error → CreateError

-- `CreateTunnel`'s parameters, and what they meet: whether a port can be bound, and the endpoint that the
-- relay gives over the adapter.
pub record Request : Type 0 where
  pub id : String
  pub local_port : ℤ
  pub remote_host : String
  pub remote_port : ℤ
  pub bindable : ℤ → Bool
  pub endpoint : Option String

abbrev pub registered : Manager × Option Registry.Error → Result CreateError (Unit {0}) × Manager
registered (m, none) = (ok tt, m)
registered (m, some e) = (err (not_registered e), m)

-- The branch over the adapter.
unfoldable pub create_by_adapter :
    World → Request → Manager → Result CreateError (Unit {0}) × Manager
create_by_adapter w q m = elim q.endpoint [
  | none ↦ (err adapter_failed, m)
  | some endpoint ↦
      if str_eq endpoint ""
      then (err empty_endpoint, m)
      else registered (
          register_tunnel_with_endpoint q.bindable w.now q.id q.local_port q.remote_host
            q.remote_port endpoint m)
]

-- The branch over the JSON connection.
unfoldable pub create_by_message :
    World → Request → Manager → Result CreateError (Unit {0}) × Manager
create_by_message w q m = if not w.send then (err not_sent, m) else elim w.receive [
  | none ↦ (err no_response, m)
  | some fs ↦
      if not (is_type "tunnel_response" fs)
      then (err unexpected_type, m)
      else elim (status_error "tunnel creation failed" fs) [
        | some e ↦ (err (refused e), m)
        | none ↦
            registered
              (register_tunnel q.bindable w.now q.id q.local_port q.remote_host q.remote_port m)
      ]
]

-- `CreateTunnel`.
unfoldable pub create_tunnel :
    World → Client → Request → Manager → Result CreateError (Unit {0}) × Manager
create_tunnel w c q m =
    if not c.connected
    then (err not_connected, m)
    else if c.use_transport_adapter
    then create_by_adapter w q m
    else create_by_message w q m

-- The registration that a created tunnel has gone through.
abbrev pub Registered : World → Request → String → Manager → Manager → Type 0
Registered w q endpoint m m' =
    register_tunnel_with_endpoint q.bindable w.now q.id q.local_port q.remote_host q.remote_port
      endpoint m
    ≡ (m', none)

-- What a tunnel that was created rests on: the relay's endpoint over the adapter, or its answer.
abbrev pub Answered : World → Client → Request → String → Type 0
Answered w c q endpoint =
    ((c.use_transport_adapter ≡ true) × (q.endpoint ≡ some endpoint) × (endpoint ≢ ""))
    ⊎ ((c.use_transport_adapter ≡ false)
        × (endpoint ≡ "")
        × ((fs : Fields) × (w.receive ≡ some fs)
            × (status_error "tunnel creation failed" fs ≡ none)))

registered_ok :
    (r : Manager × Option Registry.Error) (m' : Manager)
    → registered r ≡ (ok tt, m')
    → r ≡ (m', none)
registered_ok (m, none) m' h = ground arith
registered_ok (m, some e) m' h = absurd (ground arith)

by_adapter :
    (w : World) (q : Request) (m m' : Manager)
    → create_by_adapter w q m ≡ (ok tt, m')
    → (endpoint : String) × (q.endpoint ≡ some endpoint)
      × (endpoint ≢ "")
      × Registered w q endpoint m m'
unfolding create_by_adapter
by_adapter w q m m' h = elim (Option-cases q.endpoint) [
  | inl none_given ↦ absurd (ground arith)
  | inr (endpoint, given) ↦ elim (Bool-cases (str_eq endpoint "")) [
    | inl empty ↦ absurd (ground arith)
    | inr some_text ↦
        let r =
          register_tunnel_with_endpoint q.bindable w.now q.id q.local_port q.remote_host
            q.remote_port endpoint m in
        (
          endpoint,
          given,
          λ e. absurd (ground (arith, eq_iff endpoint "")),
          registered_ok r m' (ground arith),
        )
  ]
]

by_message :
    (w : World) (q : Request) (m m' : Manager)
    → create_by_message w q m ≡ (ok tt, m')
    → ((fs : Fields) × (w.receive ≡ some fs) × (status_error "tunnel creation failed" fs ≡ none))
      × Registered w q "" m m'
unfolding create_by_message register_tunnel
by_message w q m m' h = elim (Option-cases w.receive) [
  | inl silent ↦ absurd (ground arith)
  | inr (fs, heard) ↦ elim (Option-cases (status_error "tunnel creation failed" fs)) [
    | inr (e, bad) ↦ absurd (ground arith)
    | inl good ↦
        let r =
          register_tunnel_with_endpoint q.bindable w.now q.id q.local_port q.remote_host
            q.remote_port "" m in
        ((fs, heard, good), registered_ok r m' (ground arith))
  ]
]

-- Where `CreateTunnel` succeeds, the client was connected, the relay gave an endpoint that is not empty
-- or answered that the tunnel is there, and the tunnel was registered with that endpoint.
pub tunnel_created :
    (w : World) (c : Client) (q : Request) (m m' : Manager)
    → create_tunnel w c q m ≡ (ok tt, m')
    → (c.connected ≡ true)
      × ((endpoint : String) × Answered w c q endpoint × Registered w q endpoint m m')
unfolding create_tunnel
tunnel_created w c q m m' h = elim (Bool-cases c.connected) [
  | inr off ↦ absurd (ground arith)
  | inl on ↦ elim (Bool-cases c.use_transport_adapter) [
    | inl adapter ↦
        let (endpoint, given, some_text, reg) = by_adapter w q m m' (ground arith) in
        (on, (endpoint, inl (adapter, given, some_text), reg))
    | inr legacy ↦
        let (answer, reg) = by_message w q m m' (ground arith) in
        (on, ("", inr (legacy, refl, answer), reg))
  ]
]

refused_keeps :
    (w : World) (q : Request) (endpoint : String) (m : Manager) (e : CreateError)
    → (registered (
        register_tunnel_with_endpoint q.bindable w.now q.id q.local_port q.remote_host q.remote_port
          endpoint m)).0
      ≡ err e
    → (registered (
        register_tunnel_with_endpoint q.bindable w.now q.id q.local_port q.remote_host q.remote_port
          endpoint m)).1
      ≡ m
unfolding register_tunnel_with_endpoint
refused_keeps w q endpoint m e h = ground arith

-- Where `CreateTunnel` fails, at whatever step, the registry is as it was.
failed_keeps_registry :
    (w : World) (c : Client) (q : Request) (m : Manager) (e : CreateError)
    → (create_tunnel w c q m).0 ≡ err e
    → (create_tunnel w c q m).1 ≡ m
unfolding create_tunnel create_by_adapter create_by_message register_tunnel
failed_keeps_registry w c q m e h = grind (arith, refused_keeps)
