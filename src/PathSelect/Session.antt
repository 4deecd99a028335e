-- ===== src/PathSelect/Session.antt =====
-- pkg/pathselect/types.go and session.go: the session record and its state machine.
use Prim.Native.String.{String}
use mathlib.Core.Logic.{ite}
use cloudbridge_client.Prelude.{ℕ, Bool, true, false, Option, none, some, List, if◌then◌else◌}
use cloudbridge_client.Prelude.Time.{Time}
pub mod Edges
pub mod Runs

-- `SessionState`; `unset` is the empty string of a zero-value session.
pub data SessionState : Type 0 where
  unset idle authenticating control_ready probing : SessionState
  path_selected degraded handing_over failed closed : SessionState

unfoldable pub SessionState-discrete : Discrete SessionState
SessionState-discrete = hlevel

-- An open path instance (`Handle`), by its identity.
abbrev pub Handle : Type 0
Handle = ℕ

-- The package's errors: `all_failed` is `ErrAllPathsFailed` itself, `all_paths_failed` that error
-- wrapped round the last one, and `adapter` an error that a path adapter returned.
pub data PathError : Type 0 where
  nil_selector nil_session nil_argument selector_disabled no_paths_configured all_failed : PathError
  invalid_transition : SessionState → SessionState → PathError
  not_registered : String → PathError
  probe_failed : String → PathError → PathError
  open_failed : String → PathError → PathError
  all_paths_failed : PathError → PathError
  adapter : String → PathError

pub record Session : Type 0 where
  pub id : String
  pub tenant_id : String
  pub local_peer : String
  pub remote_peer : String
  pub state : SessionState
  pub active_path : String
  pub active : Option Handle
  pub last_error : Option PathError
  pub updated_at : Time
  pub last_failover : Time

-- `allowedTransitions`; a missing entry of the map reads as false.
abbrev pub allowed : SessionState → SessionState → Bool
allowed idle authenticating = true
allowed idle closed = true
allowed authenticating control_ready = true
allowed authenticating failed = true
allowed authenticating closed = true
allowed control_ready probing = true
allowed control_ready failed = true
allowed control_ready closed = true
allowed probing path_selected = true
allowed probing failed = true
allowed probing closed = true
allowed path_selected degraded = true
allowed path_selected handing_over = true
allowed path_selected probing = true
allowed path_selected failed = true
allowed path_selected closed = true
allowed degraded probing = true
allowed degraded handing_over = true
allowed degraded path_selected = true
allowed degraded failed = true
allowed degraded closed = true
allowed handing_over path_selected = true
allowed handing_over degraded = true
allowed handing_over failed = true
allowed handing_over closed = true
allowed failed probing = true
allowed failed authenticating = true
allowed failed closed = true
allowed _ _ = false

-- `from := s.State; if from == "" { from = StateIdle }`
abbrev pub or_idle : SessionState → SessionState
or_idle unset = idle
or_idle from = from

-- `Transition`, at the time `now`: the session afterwards, and the error if there is one.
unfoldable pub transition : Time → SessionState → Session → Session × Option PathError
unfolding SessionState-discrete
transition now next s =
    let from = or_idle s.state in
    ite (SessionState-discrete from next) (record s { state = from; updated_at = now }, none)
      (if allowed from next
        then (record s { state = next; updated_at = now }, none)
        else (record s { state = from }, some (invalid_transition from next)))

-- `_ = sess.Transition(next)`: the error is dropped.
abbrev pub go : Time → SessionState → Session → Session
go now next s = (transition now next s).0

unfoldable pub new_session : Time → String → String → String → String → Session
new_session now id tenant local remote = record {
  id = id;
  tenant_id = tenant;
  local_peer = local;
  remote_peer = remote;
  state = idle;
  active_path = "";
  active = none;
  last_error = none;
  updated_at = now;
  last_failover = 0;
}
