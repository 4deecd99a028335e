-- ===== src/P2p/Discover/Beats.antt =====
-- pkg/p2p/manager.go: the ids that the heartbeats carry, and their interval.

use text.Mathlib.Text.{◌==◌ as str_eq}
use cloudbridge_client.Prelude.{◌≡◌, refl, arith, false, Option, some}
use cloudbridge_client.Prelude.Int.{pos, ◌<ℤ◌}
use cloudbridge_client.Prelude.Time.{Duration, seconds}
use cloudbridge_client.Api.Manager.{Manager}
use cloudbridge_client.Api.Calls
use cloudbridge_client.P2p.Settings.{or_default}
use cloudbridge_client.P2p.{P2pManager, Services}
use cloudbridge_client.P2p.Overlay.{fill_ids, misses_ids}
use cloudbridge_client.P2p.Discover.{
  fill_session, send_heartbeat, start_heartbeat, beat_result, BeatError,
}

-- A manager whose four ids are set.
pub record HasIds {Pub : Type 0} (m : P2pManager Pub) : Type 0 where
  pub tenant : str_eq m.tenant_id "" ≡ false
  pub peer : str_eq m.peer_id "" ≡ false
  pub token : str_eq m.token "" ≡ false
  pub session : str_eq m.relay_session_id "" ≡ false

filled_id :
    {Pub : Type 0} (api : Manager Pub) (m : P2pManager Pub) → HasIds m → fill_session api m ≡ m
unfolding fill_session fill_ids
filled_id api m h = rw (h.tenant, h.peer, h.token, h.session) refl

-- The request that the manager's own ids make.
abbrev own_beat : {Pub : Type 0} → Services → P2pManager Pub → Option BeatError
own_beat s m = beat_result (
    Calls.send_heartbeat s.acknowledged s.net s.base_url s.config_base_url m.tenant_id m.peer_id
      m.token (Calls.beat "active" m.relay_session_id))

sends_own :
    {Pub : Type 0} (s : Services) (m : P2pManager Pub) (api : Manager Pub)
    → HasIds m
    → m.api ≡ some api
    → send_heartbeat s m ≡ (own_beat s m, m)
unfolding send_heartbeat misses_ids
sends_own s m api h there =
    simp (there, send_heartbeat, filled_id api m h, h.tenant, h.peer, h.token)

-- Once its four ids are set, the manager's heartbeat keeps them, and its outcome does not depend on the
-- ids that the API manager has: it stays with the old ones after the peer was registered anew.
heartbeat_ignores_registration :
    {Pub : Type 0} (s : Services) (m : P2pManager Pub) (before after : Manager Pub)
    → HasIds m
    → m.api ≡ some before
    → ((send_heartbeat s m).0 ≡ (send_heartbeat s (record m { api = some after })).0)
      × ((send_heartbeat s m).1 ≡ m)
unfolding send_heartbeat
heartbeat_ignores_registration s m before after h there =
    let m' = record m { api = some after } in
    let kept : HasIds m' = record {
      tenant = h.tenant;
      peer = h.peer;
      token = h.token;
      session = h.session;
    } in
    rw (sends_own s m before h there, sends_own s m' after kept refl) (refl, refl)

-- `startHeartbeat` always leaves a ticker with an interval above 0, which the configuration has too.
ticker_positive :
    {Pub : Type 0} (m : P2pManager Pub)
    → (d : Duration) × ((start_heartbeat m).ticker ≡ some d)
      × ((start_heartbeat m).config.heartbeat_interval ≡ d)
      × (pos 0 <ℤ d)
unfolding start_heartbeat
ticker_positive m = (or_default (seconds 30) m.config.heartbeat_interval, refl, refl, ground arith)
