-- ===== src/Lib.antt =====
-- The client's core logic, modelled and proved: how a session finds, keeps and leaves a path to its
-- peer, how the heartbeat backs off, how tunnels are registered and copied, how errors are classified
-- and retried, how the mesh keeps its routes, how the relay's transport is switched, how a handover
-- is signed and decided, which tokens are accepted, how the peer is registered at the relay's API
-- and kept registered, how the transport falls back, how the configuration is checked and
-- reloaded, how the relay client connects and logs in, what the synthetic probes count, how the P2P
-- manager starts, meets its peers and stops, when the SLO controller switches, how the WireGuard
-- interface is set up and taken down, and how the gRPC control plane uses its connection.
--
-- Files and the code they model (paths from the repository's root):
--   Prelude: the shared names; Int is Go's signed numbers with the wrap-around of int64, Time its clock
--     (a time counts nanoseconds from the zero time), StringMap its maps as association lists.
--   PathSelect.Session: pkg/pathselect/types.go and session.go, `SessionState`, `allowedTransitions` and
--     `Transition`; Session.Edges the documented diagram, Session.Runs lists of requests.
--   PathSelect.Config: pkg/pathselect/config.go, `DefaultConfig` and `Normalize`.
--   PathSelect.Ladder: pkg/pathselect/selector.go and metrics.go, `NewLadderSelector` and `Ensure`;
--     Ladder.Outcome its entry and exit, Ladder.Order which path it takes, Ladder.Handles what is open.
--   PathSelect.Health: `HealthTick` of the same file; Health.Outcome and Health.Spacing its cooldown,
--     Health.Failover its handles.
--   PathSelect.Release: `ClearActive` of pkg/pathselect/session.go.
--   Heartbeat: pkg/heartbeat/manager.go; Heartbeat.Invariant its state, Heartbeat.Backoff the interval,
--     Heartbeat.Loop `heartbeatLoop`.
--   Tunnel: pkg/tunnel/manager.go; Tunnel.Registry the map of tunnels, Tunnel.Buffers the pool,
--     Tunnel.Stats the counters, Tunnel.Copy one direction of a connection.
--   RelayErrors: pkg/errors/errors.go; Contains the substring search, Codes `HandleError`, Retry
--     `RetryStrategy` and the loops of cmd/cloudbridge-client/main.go that use it.
--   Mesh: pkg/p2p/mesh.go and its types; Mesh.Config the conditions of `Start`, Mesh.Routes the routing
--     round, Mesh.Owners and Mesh.Removal who owns a destination.
--   RelaySwitch: pkg/relay/autoswitch.go, the switch between QUIC and WireGuard; RelaySwitch.Replay its
--     effects as a protocol.
--   Handover: pkg/handover/manager.go; Handover.Tokens which tokens are accepted, Handover.Spacing the
--     interval between switches.
--   Auth: pkg/auth/auth.go; Auth.Claims and Auth.Keys the claims and the key set, Auth.Validate
--     `ValidateToken`, its children what an accepted token was signed with, Auth.Extract what is read out
--     of a token, Auth.Header the Authorization header.
--   Api.Client: pkg/api/client.go, `doRequest` and `doRequestWithRetry`; Client.Status the texts of HTTP
--     errors, Client.Retry which answers end a call.
--   Api.Manager: pkg/api/manager.go; Manager.Register the registration over Auth, Manager.Beats
--     `startHeartbeat`, Manager.Lifecycle `Start` and `Stop`, Manager.Channels their stop channels.
--   Fallback: pkg/transport/auto_switch.go; Fallback.Choice which mode `NextHealthy` moves to,
--     Fallback.Dead a current mode that is down.
--   Configuration: pkg/config/config.go over pkg/types/types.go, `validateConfig`; Configuration.Valid what
--     it lets pass, Configuration.Environment `substituteEnvVar`,
--     Environment.Reference what it makes of a reference, Configuration.Watcher `LoadConfig` and
--     pkg/config/watcher.go, Watcher.Reload what a change of the file does;
--     Configuration.Addresses: pkg/types/addrs.go.
--   RelayClient: pkg/relay/client.go, the connection and its mutex; RelayClient.Locks which calls return,
--     RelayClient.Login `Authenticate` over Auth, RelayClient.Tunnels `CreateTunnel` over Tunnel.Registry,
--     RelayClient.Peering `initializeP2PManager` over P2p and `handleConfigChange`.
--   Probes: pkg/probes/synthetic.go; Probes.Counts what its results count.
--   Api.Calls: the calls of pkg/api/client.go and manager.go that are made once; Api.WireGuard:
--     pkg/api/wireguard_client.go, the files and the runs of wg-quick, WireGuard.Written what is on the disk.
--   Ice: pkg/ice/agent.go, Ice.States the state that it reports; Quic: pkg/quic/connection.go,
--     Quic.Streams its table of streams.
--   P2p: pkg/p2p/manager.go, the state of the P2P manager; P2p.Settings its configuration with
--     pkg/p2p/types.go, Settings.Filled, Settings.Defaults and Settings.Extracted the defaults and what a token gives;
--     P2p.Connect the ICE agent, the QUIC connection and the login at the relay (Connect.Relays),
--     P2p.Peers `ConnectToPeer`, `Send` and `Broadcast` (Peers.Never), P2p.Overlay WireGuard and the ICE
--     credentials (Overlay.Applied), P2p.Discover the discovery (Discover.Rounds) and the heartbeat
--     (Discover.Beats), P2p.Life `Start` (Life.Outcome) and `Stop` (Life.Stopped).
--   Slo: pkg/slo/controller.go, over a parameter for float64; Slo.Decisions what it recommends.
--   RelayWireguard: pkg/relay/wireguard.go; RelayWireguard.Cleanup what a failed connection leaves.
--   GrpcControl: grpc_client.go and grpc_transport.go of pkg/relay/transport; GrpcControl.Adapter:
--     transport.go there and pkg/relay/transport_adapter.go; GrpcControl.Protocol its calls of gRPC over
--     any run.
--   Tests: the models at concrete inputs.
--
-- How the parts meet: `Ensure` and `HealthTick` change one session and call the adapters; a call is
-- appended to a list, the latest first, and what an adapter or the clock answers is a function of that
-- list, so that no answer is fixed in advance. What pion, quic-go and the system answer to one call of the
-- P2P manager is a record that the call takes. The heartbeat's client and jitter, the system's answer to
-- binding a port, the rounds of a connection and what a retried call answers are arguments. Go's float64,
-- its net package, JSON, HMAC, the JWT library, viper and HTTP are records of operations that the
-- definitions take as parameters.
--
-- Locks: nearly every modelled method holds its lock to the end, and a run is a list of whole calls;
-- `SetToken` of the handover, which lets the lock go between its check and its write, is one call too; the
-- API manager's `Start`, which does so as well, is modelled in two halves. The relay client, whose calls
-- lock inside one another, is modelled with its mutex.
-- Pointers: a session, a peer and a tunnel are values, handed back by the operation that changes them; a
-- tunnel that is unregistered is returned, since its proxy loop still reads it. A handover token is a
-- value too: who holds the pointer that `CreateToken` returned sees the rotation of the stored token. The
-- response that all attempts of a request decode into is the list of the bodies decoded before.
-- Silence: a relay that never answers is modelled in the calls of RelayClient that take its lock; logging in
-- and creating tunnels are modelled for a relay that answers.
--
-- Bounds: int64 counters wrap at 2^64 and the int32 of open connections at 2^32, and both are read as signed
-- numbers; the doubling of the backoff wraps as an int64 does; failure and retry counts, Go ints far from their bounds, are natural
-- numbers. Fuel: the retrying loop takes one round for each retry left and one more, which is enough.
--
-- Not modelled: the path adapters, sockets, the streaming heartbeat of gRPC, the WireGuard manager of
-- Windows and MASQUE (network and system calls; pion, quic-go and gRPC are arguments), the generated
-- protocol code, the service, wizard, dashboard and metrics exporters (glue), the logging, the relay
-- client's set-up, the STUN probes, what viper reads, the TLS set-up of the configuration, and the order
-- in which Go walks a map (the order of the association list stands for it).
pub mod Prelude
pub mod PathSelect
pub mod Heartbeat
pub mod Tunnel
pub mod RelayErrors
pub mod Mesh
pub mod RelaySwitch
pub mod GrpcControl
pub mod Handover
pub mod Auth
pub mod Api
pub mod Fallback
pub mod Configuration
pub mod RelayClient
pub mod Probes
pub mod Ice
pub mod Quic
pub mod P2p
pub mod Slo
pub mod RelayWireguard
pub mod Tests
