-- ===== src/P2p/Connect/Relays.antt =====
-- pkg/p2p/manager.go over pkg/quic/connection.go: the QUIC listener and the login at the relay.
use Prim.Native.String.{String}
use text.Mathlib.TextEquality.{eq_iff}
use cloudbridge_client.Prelude.{
  ℕ, ◌≡◌, refl, arith, ◌⊎◌, inl, inr, Bool, true, Option, none, some, Option-cases, Bool-cases,
}
use cloudbridge_client.Prelude.Int.{ℤ}
use cloudbridge_client.Configuration.Environment.{lacks}
use cloudbridge_client.Quic
use cloudbridge_client.Quic.{Quic, new_quic_connection, set_client_tls_config}
use cloudbridge_client.P2p.Settings.{or_text}
use cloudbridge_client.P2p.{P2pManager, Format, derive_relay_addr, relay_port}
use cloudbridge_client.P2p.Connect.{
  RelayTry, is_local, is_loopback, relay_tls, auth_exchange, connect_to_relay_server,
  initialize_quic,
}

-- Without a server's name, dialling works only with the TLS configuration of a loopback address.
dials_loopback_only :
    (f : Format) (addr : String) (dialled : Option ℕ)
    → (Quic.connect dialled (relay_tls f addr new_quic_connection)).0 ≡ none
    → is_loopback f addr ≡ true
unfolding Quic.connect relay_tls set_client_tls_config new_quic_connection
dials_loopback_only f addr dialled h = elim (Bool-cases (is_loopback f addr)) [
  | inl e ↦ e
  | inr e ↦
      let plain : relay_tls f addr new_quic_connection ≡ new_quic_connection =
        rw (e, relay_tls) refl in
      let refused : (Quic.connect dialled new_quic_connection).0 ≡ none = rw plain at h in
      absurd (ground arith)
]

local_host :
    (f : Format) (host : String) (port : ℤ)
    → f.split_host (f.join_host_port (or_text "127.0.0.1" host) port)
      ≡ some (or_text "127.0.0.1" host)
    → is_loopback f (f.join_host_port (or_text "127.0.0.1" host) port) ≡ true
    → (host ≡ "") ⊎ ((host ≡ "127.0.0.1") ⊎ (host ≡ "localhost"))
unfolding is_loopback is_local
local_host f host port split loop =
    ground (arith, eq_iff host "", eq_iff host "127.0.0.1", eq_iff host "localhost")

lacks_default :
    (b : ℕ) (host : String)
    → lacks b "127.0.0.1" ≡ true
    → lacks b host ≡ true
    → lacks b (or_text "127.0.0.1" host) ≡ true
lacks_default b host standard h = ground arith

exchange_ok : (t : RelayTry) → auth_exchange t ≡ none → t.reply ≡ some (some "AUTH_OK")
unfolding auth_exchange
exchange_ok t h = elim (Option-cases t.reply) [
  | inl late ↦ absurd (ground arith)
  | inr (answer, got) ↦ elim (Option-cases answer) [
    | inl failed ↦ absurd (ground arith)
    | inr (text, read) ↦ ground (arith, eq_iff text "AUTH_OK")
  ]
]

module _ {Pub : Type 0} where
  -- The QUIC listener of the manager never starts, since nothing gives it a certificate.
  listener_never_starts :
      (bound : Bool) (m : P2pManager Pub) → (initialize_quic bound m).0 ≡ some Quic.no_certificates
  unfolding initialize_quic Quic.listen new_quic_connection
  listener_never_starts bound m = refl

  quic-initialize_quic :
      (bound : Bool) (m : P2pManager Pub)
      → (initialize_quic bound m).1.quic ≡ some new_quic_connection
  unfolding initialize_quic Quic.listen new_quic_connection
  quic-initialize_quic bound m = refl

  -- Where the login at the relay succeeds on the manager's fresh QUIC connection and the relay's host has no
  -- brackets, this host is 127.0.0.1, localhost or not set, and the answer was AUTH_OK; splitting a joined
  -- address gives such a host back.
  pub relay_login_local :
      (f : Format) (t : RelayTry) (m : P2pManager Pub)
      → ((host : String) (port : ℤ)
          → lacks b'[' host ≡ true
          → lacks b']' host ≡ true
          → f.split_host (f.join_host_port host port) ≡ some host)
      → lacks b'[' m.relay_host ≡ true
      → lacks b']' m.relay_host ≡ true
      → (connect_to_relay_server f t m new_quic_connection).0 ≡ none
      → ((m.relay_host ≡ "") ⊎ ((m.relay_host ≡ "127.0.0.1") ⊎ (m.relay_host ≡ "localhost")))
        × (t.reply ≡ some (some "AUTH_OK"))
  unfolding connect_to_relay_server derive_relay_addr lacks
  relay_login_local f t m splits left right h = elim (Option-cases m.api) [
    | inl none' ↦ absurd (ground arith)
    | inr (api, there) ↦
        let q' = relay_tls f (derive_relay_addr f m) new_quic_connection in
        let split =
          splits (or_text "127.0.0.1" m.relay_host) (relay_port m)
            (lacks_default b'[' m.relay_host refl left)
            (lacks_default b']' m.relay_host refl right) in
        elim (Option-cases (Quic.connect t.dialled q').0) [
          | inr (e, bad) ↦ absurd (ground arith)
          | inl fine ↦
              let loop = dials_loopback_only f (derive_relay_addr f m) t.dialled fine in
              (local_host f m.relay_host (relay_port m) split loop, exchange_ok t (ground arith))
        ]
  ]
