-- ===== src/GrpcControl/Protocol.antt =====
-- pkg/relay/transport: the calls of gRPC as a protocol, over any run of calls on the adapter.
use Prim.Native.String.{String}
use text.Mathlib.Text.{◌==◌ as str_eq}
use cloudbridge_client.Prelude.{
  ℕ, ◌≡◌, refl, ◌⊎◌, inl, inr, true, false, Option, none, some, List, [], ◌∷◌, Result, Option-cases,
  Bool-cases, if◌then◌else◌,
}
use cloudbridge_client.Configuration.Addresses.{TextLib, grpc_target}
use cloudbridge_client.GrpcControl.{
  Mode, json, grpc, Call, dialled, refused, closed, sent, Request, Network, Settings, Error, Client,
  new_client, connect, disconnect, close, remote, hello, authenticate, create_tunnel,
  send_heartbeat, build_connection_options,
}
use cloudbridge_client.GrpcControl.Adapter.{
  Manager, on_transport, switch_transport, set_transport_mode, close_manager, initialize,
  new_manager, adapter_hello, adapter_authenticate, adapter_create_tunnel, adapter_send_heartbeat,
  adapter_connect, adapter_disconnect, Op, op_connect, op_disconnect, op_close, op_mode, op_hello,
  op_authenticate, op_tunnel, op_heartbeat, step, run,
}

-- A log in which a connection is dialled only while none is open, is used and closed only while it is the
-- open one, and which ends with this one open.
abbrev pub Follows : List Call → Option ℕ → Type 0
Follows [] o = o ≡ none
Follows (dialled h ∷ log) o = (o ≡ some h) × Follows log none
Follows (refused ∷ log) o = (o ≡ none) × Follows log none
Follows (closed h ∷ log) o = (o ≡ none) × Follows log (some h)
Follows (sent h r ∷ log) o = (o ≡ some h) × Follows log (some h)

abbrev pub IsFollowed : Client → Type 0
IsFollowed c =
    ((c.connected ≡ false) × Follows c.log none)
    ⊎ ((h : ℕ) × (c.connected ≡ true) × (c.conn ≡ some h) × Follows c.log (some h))

-- No transport yet, or one that follows the protocol.
abbrev pub HoldsAt : Option Client → Type 0
HoldsAt none = true ≡ true
HoldsAt (some c) = IsFollowed c

disconnect-IsFollowed : (c : Client) → IsFollowed c → IsFollowed (disconnect c)
unfolding disconnect
disconnect-IsFollowed c (inl (off, log)) =
    let same : disconnect c ≡ c = simp (disconnect, off) in rw same (inl (off, log))
disconnect-IsFollowed c (inr (h, on, kept, log)) =
    let same : disconnect c ≡ record c { connected = false; log = closed h ∷ c.log } =
      simp (disconnect, on, kept) in
    rw same (inl (refl, (refl, log)))

remote-IsFollowed :
    {A : Type 0} (net : Network) (answer : List Call → Request → Option A) (r : Request)
    (c : Client)
    → IsFollowed c
    → IsFollowed (remote net answer r c).1
unfolding remote
remote-IsFollowed net answer r c (inl (off, log)) =
    let same : (remote net answer r c).1 ≡ c = simp (remote, off) in rw same (inl (off, log))
remote-IsFollowed net answer r c (inr (h, on, kept, log)) =
    let same : (remote net answer r c).1 ≡ record c { log = sent h r ∷ c.log } =
      simp (remote, on, kept) in
    rw same (inr (h, on, kept, (refl, log)))

on_transport-HoldsAt :
    {A : Type 0} (f : Client → Result Error A × Client)
    → ((c : Client) → IsFollowed c → IsFollowed (f c).1)
    → (k : Mode) (g : Option Client) → HoldsAt g
    → HoldsAt (on_transport f (record { current_mode = k; grpc_transport = g })).1.grpc_transport
unfolding on_transport
on_transport-HoldsAt f keeps k none h = h
on_transport-HoldsAt f keeps k (some c) h = keeps c h

switch-HoldsAt :
    (to : Mode) (k : Mode) (g : Option Client)
    → HoldsAt g
    → HoldsAt
        (switch_transport to (record { current_mode = k; grpc_transport = g })).1.grpc_transport
unfolding switch_transport
switch-HoldsAt json json g h = h
switch-HoldsAt grpc json g h = h
switch-HoldsAt grpc grpc g h = h
switch-HoldsAt json grpc none h = h
switch-HoldsAt json grpc (some c) h = elim (Bool-cases c.connected) [
  | inl on ↦
      let same : (if c.connected then disconnect c else c) ≡ disconnect c = simp (on) in
      rw same (disconnect-IsFollowed c h)
  | inr off ↦ let same : (if c.connected then disconnect c else c) ≡ c = simp (off) in rw same h
]

mode-HoldsAt :
    (mode : String) (m : Manager)
    → HoldsAt m.grpc_transport
    → HoldsAt (set_transport_mode mode m).1.grpc_transport
unfolding set_transport_mode
mode-HoldsAt mode m h = elim (Bool-cases (str_eq mode "grpc")) [
  | inl is_grpc ↦
      let same : set_transport_mode mode m ≡ switch_transport grpc m =
        simp (set_transport_mode, is_grpc) in
      rw same (switch-HoldsAt grpc m.current_mode m.grpc_transport h)
  | inr not_grpc ↦ elim (Bool-cases (str_eq mode "json")) [
    | inl is_json ↦
        let same : set_transport_mode mode m ≡ switch_transport json m =
          simp (set_transport_mode, not_grpc, is_json) in
        rw same (switch-HoldsAt json m.current_mode m.grpc_transport h)
    | inr not_json ↦
        let same : (set_transport_mode mode m).1 ≡ m =
          simp (set_transport_mode, not_grpc, not_json) in
        rw same h
  ]
]

module _ (lib : TextLib) (net : Network) (s : Settings) where
  connect-IsFollowed : (c : Client) → IsFollowed c → IsFollowed (connect lib net s c).1
  unfolding connect
  connect-IsFollowed c (inr (h, on, kept, log)) =
      let same : (connect lib net s c).1 ≡ c = simp (connect, on) in
      rw same (inr (h, on, kept, log))
  connect-IsFollowed c (inl (off, log)) =
      elim (Bool-cases (str_eq (grpc_target lib s.endpoints) "")) [
        | inl blank ↦
            let same : (connect lib net s c).1 ≡ c = simp (connect, off, blank) in
            rw same (inl (off, log))
        | inr there ↦
            elim (Option-cases (
              net.dial c.log c.cancelled (grpc_target lib s.endpoints)
                (build_connection_options s))) [
                  | inl bad ↦
                      let same : (connect lib net s c).1 ≡ record c { log = refused ∷ c.log } =
                        simp (connect, off, there, bad) in
                      rw same (inl (off, (refl, log)))
                  | inr (h, good) ↦
                      let same : (connect lib net s c).1
                          ≡ record c { connected = true; conn = some h; log = dialled h ∷ c.log } =
                        simp (connect, off, there, good) in
                      rw same (inr (h, refl, refl, (refl, log)))
                ]
      ]

  connect-HoldsAt :
      (k : Mode) (g : Option Client)
      → HoldsAt g
      → HoldsAt
          (adapter_connect lib net s
            (record { current_mode = k; grpc_transport = g })).1.grpc_transport
  unfolding adapter_connect
  connect-HoldsAt k none h = h
  connect-HoldsAt k (some c) h = connect-IsFollowed c h

  disconnect-HoldsAt :
      (k : Mode) (g : Option Client)
      → HoldsAt g
      → HoldsAt
          (adapter_disconnect (record { current_mode = k; grpc_transport = g })).1.grpc_transport
  unfolding adapter_disconnect
  disconnect-HoldsAt k none h = h
  disconnect-HoldsAt k (some c) h = disconnect-IsFollowed c h

  close-HoldsAt :
      (k : Mode) (g : Option Client)
      → HoldsAt g
      → HoldsAt (close_manager (record { current_mode = k; grpc_transport = g })).grpc_transport
  unfolding close_manager close
  close-HoldsAt k none h = h
  close-HoldsAt k (some c) h = disconnect-IsFollowed (record c { cancelled = true }) h

  step-HoldsAt :
      (op : Op) (m : Manager)
      → HoldsAt m.grpc_transport
      → HoldsAt (step lib net s op m).grpc_transport
  unfolding step adapter_hello adapter_authenticate adapter_create_tunnel adapter_send_heartbeat
      hello authenticate create_tunnel send_heartbeat
  step-HoldsAt op_connect m h = connect-HoldsAt m.current_mode m.grpc_transport h
  step-HoldsAt op_disconnect m h = disconnect-HoldsAt m.current_mode m.grpc_transport h
  step-HoldsAt op_close m h = close-HoldsAt m.current_mode m.grpc_transport h
  step-HoldsAt (op_mode mode) m h = mode-HoldsAt mode m h
  step-HoldsAt (op_hello version features) m h =
      on_transport-HoldsAt _ (λ c. remote-IsFollowed net net.hello _ c) m.current_mode
        m.grpc_transport h
  step-HoldsAt (op_authenticate token) m h =
      on_transport-HoldsAt _ (λ c. remote-IsFollowed net net.authenticate _ c) m.current_mode
        m.grpc_transport h
  step-HoldsAt (op_tunnel id tenant local host port) m h =
      on_transport-HoldsAt _ (λ c. remote-IsFollowed net net.create_tunnel _ c) m.current_mode
        m.grpc_transport h
  step-HoldsAt (op_heartbeat client tenant) m h =
      on_transport-HoldsAt _ (λ c. remote-IsFollowed net net.heartbeat _ c) m.current_mode
        m.grpc_transport h

  run-HoldsAt :
      (ops : List Op) (m : Manager)
      → HoldsAt m.grpc_transport
      → HoldsAt (run lib net s ops m).grpc_transport
  unfolding run
  run-HoldsAt [] m h = h
  run-HoldsAt (op ∷ ops) m h = run-HoldsAt ops (step lib net s op m) (step-HoldsAt op m h)

  -- From an initialized manager, any run of calls of the adapter keeps the protocol: a connection is
  -- dialled only while none is open, requests go out and a close is made only on the open connection, and the
  -- client is connected exactly while one is open.
  pub run-IsFollowed :
      (ops : List Op) → HoldsAt (run lib net s ops (initialize new_manager)).grpc_transport
  unfolding initialize new_client
  run-IsFollowed ops = run-HoldsAt ops (initialize new_manager) (inl (refl, refl))
