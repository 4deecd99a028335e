-- ===== src/RelayWireguard.antt =====
-- pkg/relay/wireguard.go: the WireGuard manager of the relay client. Every command that it runs is kept in
-- a log, the latest first; how a command ends is a function of what was run before it.
use Prim.Native.String.{String}
use text.Mathlib.Text.{◌==◌ as str_eq}
use cloudbridge_client.Prelude.{
  Bool, true, false, not, Option, none, some, List, [], ◌∷◌, Result, ok, err, if◌then◌else◌,
}
use cloudbridge_client.Prelude.Int.{ℤ}
pub mod Cleanup

-- The commands, all on the one interface.
pub data Command : Type 0 where
  show_link add_link gen_key set_key link_up link_down del_link remove_all_peers list_peers :
      Command
  set_mtu : ℤ → Command
  remove_peer : String → Command

-- How commands end, and what `wg show ... peers` prints, by lines.
pub record System : Type 0 where
  pub works : List Command → Command → Bool
  pub peers : List Command → List String
  pub trim : String → String
  pub has_wg : Bool

-- `WireGuardManager`.
pub record Manager : Type 0 where
  pub interface_name : String
  pub mtu : ℤ
  pub connected : Bool
  pub log : List Command

pub data Error : Type 0 where
  disabled no_tools not_created no_key not_keyed no_mtu not_up : Error

-- `NewWireGuardManager`, on the fields of the configuration.
unfoldable pub new_wireguard_manager : System → Bool → String → ℤ → Result Error Manager
new_wireguard_manager sys enabled name mtu =
    if not enabled
    then err disabled
    else if not sys.has_wg
    then err no_tools
    else ok (record { interface_name = name; mtu = mtu; connected = false; log = [] })

module _ (sys : System) where
  -- A command is run and logged.
  abbrev pub run : Command → Manager → Bool × Manager
  run c m = (sys.works m.log c, record m { log = c ∷ m.log })

  -- `configureInterface`.
  unfoldable pub configure_interface : Manager → Option Error × Manager
  configure_interface m =
      let (generated, m1) = run gen_key m in
      let (keyed, m2) = run set_key m1 in
      let (sized, m3) = run (set_mtu m.mtu) m2 in
      if not generated
      then (some no_key, m1)
      else if not keyed
      then (some not_keyed, m2)
      else if not sized
      then (some no_mtu, m3)
      else (none, m3)

  -- `Connect` from the creation of the interface on; a failed clean-up is only logged.
  unfoldable pub set_up : Manager → Option Error × Manager
  set_up m =
      let (created, m1) = run add_link m in
      let (configured, m2) = configure_interface m1 in
      let (up, m3) = run link_up m2 in
      if not created then (some not_created, m1) else elim configured [
        | some e ↦ (some e, (run del_link m2).1)
        | none ↦
            if up
            then (none, record m3 { connected = true })
            else (some not_up, (run del_link m3).1)
      ]

  -- `Connect`.
  unfoldable pub connect : Manager → Option Error × Manager
  connect m =
      let (exists', m1) = run show_link m in
      if m.connected
      then (none, m)
      else if exists'
      then (none, record m1 { connected = true })
      else set_up m1

  -- `Disconnect`.
  unfoldable pub disconnect : Manager → Manager
  disconnect m = if m.connected then record ((run del_link m).1) { connected = false } else m

  -- `removeIndividualPeers`, and its loop.
  unfoldable pub remove_each : List String → Manager → Manager
  remove_each [] m = m
  remove_each (p ∷ ps) m =
      let peer = sys.trim p in
      remove_each ps (if str_eq peer "" then m else (run (remove_peer peer) m).1)

  unfoldable pub remove_individual_peers : Manager → Manager
  remove_individual_peers m =
      let (listed, m1) = run list_peers m in if listed then remove_each (sys.peers m.log) m1 else m1

  -- `removePeers`.
  unfoldable pub remove_peers : Manager → Manager
  remove_peers m =
      let (removed, m1) = run remove_all_peers m in
      if removed then m1 else remove_individual_peers m1

  -- `TearDown`, which `Stop` calls.
  unfoldable pub tear_down : Manager → Manager
  tear_down m =
      if m.connected
      then record ((run del_link (run link_down (remove_peers m)).1).1) { connected = false }
      else m

  unfoldable pub stop : Manager → Manager
  stop m = tear_down m
