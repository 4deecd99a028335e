-- ===== src/PathSelect/Ladder.antt =====
-- pkg/pathselect/selector.go and metrics.go: the selector, the counters, and `Ensure`, which tries
-- the configured paths in order and keeps the first that probes and opens.
use Prim.Native.String.{String}
use cloudbridge_client.Prelude.{
  ℕ, ◌+◌, ◌==◌, Bool, true, false, ◌&&◌, not, Option, none, some, List, [], ◌∷◌, Result, ok, err,
  if◌then◌else◌,
}
use cloudbridge_client.Prelude.Time.{Time}
use cloudbridge_client.Prelude.StringMap.{Map, lookup, insert}
use cloudbridge_client.PathSelect.Config.{Config, normalize}
use cloudbridge_client.PathSelect.Session.{
  SessionState, unset, idle, authenticating, control_ready, probing, path_selected, degraded,
  handing_over, failed, closed, Handle, PathError, nil_selector, nil_session, selector_disabled,
  no_paths_configured, not_registered, probe_failed, open_failed, all_failed, all_paths_failed,
  Session, transition, go,
}
pub mod Outcome
pub mod Order
pub mod Handles

-- A path adapter (`Path`), by its identity.
abbrev pub PathAdapter : Type 0
PathAdapter = ℕ

pub record OpenRequest : Type 0 where
  pub session_id : String
  pub tenant_id : String
  pub local_peer : String
  pub remote_peer : String
  pub local_listen : String
  pub remote_host : String
  pub remote_port : ℕ
  pub meta : List (String × String)

-- A call that the selector makes on an adapter or a handle, with how it went.
pub data Call : Type 0 where
  probed : PathAdapter → Option PathError → Call
  opened : PathAdapter → OpenRequest → Handle → Call
  open_refused : PathAdapter → OpenRequest → PathError → Call
  released : Handle → Call

-- The counters of metrics.go.
pub record Metrics : Type 0 where
  pub path_selected_count : ℕ
  pub path_fail_count : ℕ
  pub failover_count : ℕ

-- What lies outside the session: the calls made so far, the latest first, and the counters.
pub record World : Type 0 where
  pub calls : List Call
  pub metrics : Metrics

-- The adapters and the clock. They may answer by all that has been asked before; a context that
-- has timed out or was cancelled is one more reason for an error.
pub record Env : Type 0 where
  pub path_name : PathAdapter → String
  pub probe : List Call → PathAdapter → Option PathError
  pub open_path : List Call → PathAdapter → OpenRequest → Result PathError Handle
  pub now : List Call → Time

abbrev pub log : Call → World → World
log c w = record w { calls = c ∷ w.calls }

unfoldable pub note_path_selected : World → World
note_path_selected w = record w {
  metrics = record (w.metrics) { path_selected_count = w.metrics.path_selected_count + 1 };
}

unfoldable pub note_path_fail : World → World
note_path_fail w = record w {
  metrics = record (w.metrics) { path_fail_count = w.metrics.path_fail_count + 1 };
}

unfoldable pub note_failover : World → World
note_failover w = record w {
  metrics = record (w.metrics) { failover_count = w.metrics.failover_count + 1 };
}

-- `LadderSelector`.
pub record Selector : Type 0 where
  pub cfg : Config
  pub paths : Map PathAdapter

-- The loop of `NewLadderSelector`: a nil path is skipped, a later one of the same name replaces.
register : Env → List (Option PathAdapter) → Map PathAdapter → Map PathAdapter
register env [] m = m
register env (none ∷ ps) m = register env ps m
register env (some p ∷ ps) m = register env ps (insert (env.path_name p) p m)

unfoldable pub new_selector : Env → Config → List (Option PathAdapter) → Selector
unfolding register
new_selector env cfg paths = record { cfg = normalize cfg; paths = register env paths [] }

-- One rung that has an adapter: probe, then open.
unfoldable pub try_path :
    Env → OpenRequest → PathAdapter → World → World × Result (PathError × Bool) Handle
try_path env req p w =
    let answer = env.probe w.calls p in
    let w' = log (probed p answer) w in
    elim answer [
      | some e ↦ (w', err (e, false))
      | none ↦ elim (env.open_path w'.calls p req) [
        | err e ↦ (log (open_refused p req e) w', err (e, true))
        | ok h ↦ (log (opened p req h) w', ok h)
      ]
    ]

-- `fmt.Errorf("%s probe: %w", name, err)` or `"%s open: %w"`.
abbrev pub rung_error : String → PathError × Bool → PathError
rung_error name (e, false) = probe_failed name e
rung_error name (e, true) = open_failed name e

-- How a walk over the rungs ends: at an open path, or with the last error, if any.
pub data Walk : Type 0 where
  landed : String → PathAdapter → Handle → Walk
  exhausted : Option PathError → Walk

-- The loop of `Ensure` over `s.cfg.Order`.
unfoldable pub ladder :
    Env → OpenRequest → Map PathAdapter → List String → Option PathError → World → World × Walk
ladder env req paths [] last w = (w, exhausted last)
ladder env req paths (name ∷ rest) last w = elim (lookup name paths) [
  | none ↦ ladder env req paths rest (some (not_registered name)) w
  | some p ↦
      let (w', r) = try_path env req p w in
      elim r [
        | err e ↦ ladder env req paths rest (some (rung_error name e)) w'
        | ok h ↦ (w', landed name p h)
      ]
]

-- `if sess.Active != nil && sess.Active != h { _ = sess.Active.Close(ctx) }`
unfoldable pub close_replaced : Option Handle → Handle → World → World
close_replaced none h w = w
close_replaced (some a) h w = if a == h then w else log (released a) w

-- The `switch` on entry: the session in the probing state, or the refused transition.
unfoldable pub enter_probing : SessionState → Time → Session → Session × Option PathError
enter_probing idle now s = (go now probing (go now control_ready (go now authenticating s)), none)
enter_probing authenticating now s =
    (go now probing (go now control_ready (go now authenticating s)), none)
enter_probing control_ready now s = (go now probing s, none)
enter_probing failed now s = (go now probing s, none)
enter_probing degraded now s = (go now probing s, none)
enter_probing path_selected now s = (go now probing s, none)
enter_probing probing now s = (s, none)
enter_probing _ now s = transition now probing s

-- `if lastErr == nil { lastErr = ErrAllPathsFailed }`
abbrev pub or_all_failed : Option PathError → PathError
or_all_failed none = all_failed
or_all_failed (some e) = e

-- What follows the loop of `Ensure`.
unfoldable pub conclude :
    Env → Session → World × Walk → Session × World × Result PathError (PathAdapter × Handle)
unfolding note_path_selected note_path_fail
conclude env s (w, landed name p h) =
    let w' = close_replaced s.active h w in
    let s' = record s { active = some h; active_path = name; last_error = none } in
    (go (env.now w'.calls) path_selected s', note_path_selected w', ok (p, h))
conclude env s (w, exhausted last) =
    let s' = record s { last_error = last } in
    (go (env.now w.calls) failed s', note_path_fail w, err (all_paths_failed (or_all_failed last)))

-- `Ensure` on a selector and a session that are there.
unfoldable pub ensure_session :
    Env
    → Selector
    → Session
    → OpenRequest
    → World
    → Session × World × Result PathError (PathAdapter × Handle)
ensure_session env sel s req w =
    if not sel.cfg.enabled then (s, w, err selector_disabled) else elim sel.cfg.order [
      | [] ↦ (s, w, err no_paths_configured)
      | name ∷ rest ↦
          let (s', refused) = enter_probing s.state (env.now w.calls) s in
          elim refused [
            | some e ↦ (s', w, err e)
            | none ↦ conclude env s' (ladder env req sel.paths (name ∷ rest) none w)
          ]
    ]

-- `Ensure`: a nil selector or session is an error.
unfoldable pub ensure :
    Env
    → Option Selector
    → Option Session
    → OpenRequest
    → World
    → Option Session × World × Result PathError (PathAdapter × Handle)
ensure env none sess req w = (sess, w, err nil_selector)
ensure env (some sel) none req w = (none, w, err nil_session)
ensure env (some sel) (some s) req w =
    let (s', w', r) = ensure_session env sel s req w in (some s', w', r)
