-- ===== src/RelaySwitch.antt =====
-- pkg/relay/autoswitch.go: the switch between QUIC and WireGuard. What it does (to the WireGuard manager
-- and with the callbacks) is a list of effects; what the outside answers is an argument.
use Prim.Native.String.{String}
use cloudbridge_client.Prelude.{
  ℕ, zero, suc, ◌+◌, ◌≡◌, refl, arith, Bool, true, false, ◌&&◌, not, Option, none, some, List, [],
  ◌∷◌, ◌++◌, if◌then◌else◌,
}
pub mod Replay

-- `TransportMode`; `other` is any string beside the two constants.
pub data TransportMode : Type 0 where
  quic wireguard : TransportMode
  other : String → TransportMode

-- `launched` starts a goroutine for each of so many callbacks, which run in any order; `added` is a
-- callback more; `torn_down` is a tear-down of a manager that is connected, since another does nothing.
pub data Effect : Type 0 where
  manager_made connected connect_failed torn_down added : Effect
  launched : ℕ → TransportMode → TransportMode → Effect

pub data Error : Type 0 where
  no_manager not_initialized connect_error : Error
  unsupported_mode : TransportMode → Error

-- `AutoSwitchManager`: the mode, the WireGuard manager, of which it counts whether it is connected, whether
-- the ticker runs, the number of callbacks, and the effects so far in their order.
pub record AutoSwitch : Type 0 where
  pub current_mode : TransportMode
  pub manager : Option Bool
  pub ticking : Bool
  pub callbacks : ℕ
  pub effects : List Effect

-- `NewAutoSwitchManager`.
unfoldable pub new_auto_switch : AutoSwitch
new_auto_switch = record {
  current_mode = quic;
  manager = none;
  ticking = false;
  callbacks = 0;
  effects = [];
}

-- `Start`, which puts a new manager in the place of the one before; `enabled` is `WireGuard.Enabled`, `made` whether `NewWireGuardManager` succeeds.
unfoldable pub start : Bool → Bool → AutoSwitch → AutoSwitch × Option Error
start enabled made s =
    if not enabled
    then (s, none)
    else if made
    then (
      record s { manager = some false; ticking = true; effects = s.effects ++ manager_made ∷ [] },
      none,
    )
    else (s, some no_manager)

-- `AddSwitchCallback`.
unfoldable pub add_switch_callback : AutoSwitch → AutoSwitch
add_switch_callback s = record s { callbacks = s.callbacks + 1; effects = s.effects ++ added ∷ [] }

-- `switchToWireGuard` from another mode; `connects` is whether `Connect` succeeds.
unfoldable pub enter_wireguard : Bool → AutoSwitch → AutoSwitch × Option Error
enter_wireguard connects s = elim s.manager [
  | none ↦ (s, some not_initialized)
  | some b ↦
      if connects
      then (
        record s {
          current_mode = wireguard;
          manager = some true;
          effects = s.effects ++ connected ∷ launched s.callbacks s.current_mode wireguard ∷ [];
        },
        none,
      )
      else (record s { effects = s.effects ++ connect_failed ∷ [] }, some connect_error)
]

-- `TearDown` of the manager, if there is one; an error of it is only logged.
abbrev pub tear_down : Option Bool → List Effect
tear_down none = []
tear_down (some false) = []
tear_down (some true) = torn_down ∷ []

abbrev pub torn : Option Bool → Option Bool
torn none = none
torn (some b) = some false

-- `switchToQUIC` from another mode.
unfoldable pub enter_quic : AutoSwitch → AutoSwitch
enter_quic s = record s {
  current_mode = quic;
  manager = torn s.manager;
  effects = s.effects ++ (tear_down s.manager ++ launched s.callbacks s.current_mode quic ∷ []);
}

abbrev pub is_quic : TransportMode → Bool
is_quic quic = true
is_quic _ = false

abbrev pub is_wireguard : TransportMode → Bool
is_wireguard wireguard = true
is_wireguard _ = false

-- `switchToWireGuard` and `switchToQUIC`: nothing to do in the mode itself.
unfoldable pub switch_to_wireguard : Bool → AutoSwitch → AutoSwitch × Option Error
switch_to_wireguard connects s =
    if is_wireguard s.current_mode then (s, none) else enter_wireguard connects s

unfoldable pub switch_to_quic : AutoSwitch → AutoSwitch × Option Error
switch_to_quic s = if is_quic s.current_mode then (s, none) else (enter_quic s, none)

-- `performHealthCheck`; `healthy` is `isQUICHealthy`, and an error is only logged.
unfoldable pub perform_health_check : Bool → Bool → AutoSwitch → AutoSwitch
perform_health_check healthy connects s =
    if is_quic s.current_mode && not healthy
    then (switch_to_wireguard connects s).0
    else if is_wireguard s.current_mode && healthy
    then (switch_to_quic s).0
    else s

-- `ForceSwitch`.
unfoldable pub force_switch : TransportMode → Bool → AutoSwitch → AutoSwitch × Option Error
force_switch quic connects s = switch_to_quic s
force_switch wireguard connects s = switch_to_wireguard connects s
force_switch (other name) connects s = (s, some (unsupported_mode (other name)))

-- `Stop`, which tears the manager down.
unfoldable pub stop : AutoSwitch → AutoSwitch
stop s = record s {
  ticking = false;
  manager = torn s.manager;
  effects = s.effects ++ tear_down s.manager;
}
