-- ===== src/PathSelect/Health.antt =====
-- pkg/pathselect/selector.go: `HealthTick`, the probe of the active path, the cooldown and the
-- failover inside the same lock.
use Prim.Native.String.{String}
use text.Mathlib.Text.{◌==◌ as str_eq}
use cloudbridge_client.Prelude.{
  Bool, true, false, ◌&&◌, not, Option, none, some, List, [], ◌∷◌, Result, ok, err, if◌then◌else◌,
}
use cloudbridge_client.Prelude.Int.{ltb_ℤ}
use cloudbridge_client.Prelude.Time.{Time, Duration, is_zero, since}
use cloudbridge_client.Prelude.StringMap.{Map, lookup}
use cloudbridge_client.PathSelect.Session.{
  SessionState, path_selected, degraded, probing, failed, Handle, PathError, nil_argument,
  selector_disabled, not_registered, all_paths_failed, Session, transition, go,
}
use cloudbridge_client.PathSelect.Ladder.{
  PathAdapter, OpenRequest, World, Env, Selector, Walk, landed, exhausted, probed, released, log,
  try_path, note_path_selected, note_path_fail, note_failover,
}
pub mod Outcome
pub mod Failover
pub mod Spacing

-- The loop over the order in `HealthTick`: the active path is skipped unless `soft_fail`, a name
-- that is not registered leaves the last error alone, and errors are not wrapped.
unfoldable pub reladder :
    Env
    → OpenRequest
    → Map PathAdapter
    → Bool
    → String
    → List String
    → Option PathError
    → World
    → World × Walk
reladder env req paths soft active [] last w = (w, exhausted last)
reladder env req paths soft active (name ∷ rest) last w =
    let skipped = reladder env req paths soft active rest last w in
    if str_eq name active && not soft then skipped else elim (lookup name paths) [
      | none ↦ reladder env req paths soft active rest last w
      | some p ↦
          let (w', r) = try_path env req p w in
          elim r [
            | err e ↦ reladder env req paths soft active rest (some e.0) w'
            | ok h ↦ (w', landed name p h)
          ]
    ]

-- `if sess.Active != nil { _ = sess.Active.Close(ctx) }`
unfoldable pub close_active : Option Handle → World → World
close_active none w = w
close_active (some a) w = log (released a) w

-- `if lastErr == nil { lastErr = err }`
abbrev pub or_error : Option PathError → PathError → PathError
or_error none e = e
or_error (some e') e = e'

-- What follows the loop; `e` is the error of the probe that began the failover.
unfoldable pub settle :
    Env → PathError → Session → World × Walk → Session × World × Option PathError
settle env e s (w, landed name p h) =
    let w' = close_active s.active w in
    let s' = record s {
      active = some h;
      active_path = name;
      last_failover = env.now w'.calls;
      last_error = none;
    } in
    (go (env.now w'.calls) path_selected s', note_path_selected (note_failover w'), none)
settle env e s (w, exhausted last) =
    let s' = record s { last_error = some (or_error last e) } in
    (go (env.now w.calls) failed s', note_path_fail w, some (all_paths_failed (or_error last e)))

-- The request that a failover opens with.
abbrev pub failover_request : Session → OpenRequest
failover_request s = record {
  session_id = s.id;
  tenant_id = s.tenant_id;
  local_peer = s.local_peer;
  remote_peer = s.remote_peer;
  local_listen = "";
  remote_host = "";
  remote_port = 0;
  meta = [];
}

-- `!sess.LastFailover.IsZero() && time.Since(sess.LastFailover) < s.cfg.FailoverCooldown`
abbrev pub cooling : Time → Time → Duration → Bool
cooling now last cooldown = not (is_zero last) && ltb_ℤ (since now last) cooldown

-- The part of `HealthTick` after the active path failed its probe with `e`.
unfoldable pub fail_over :
    Env → Selector → Session → PathError → World → Session × World × Option PathError
fail_over env sel s e w =
    let s' = go (env.now w.calls) degraded (record s { last_error = some e }) in
    if cooling (env.now w.calls) s'.last_failover sel.cfg.failover_cooldown
    then (s', w, some e)
    else (let s'' = go (env.now w.calls) probing s' in
        settle env e s'' (
          reladder env (failover_request s'') sel.paths sel.cfg.soft_fail s''.active_path
            sel.cfg.order none w))

-- `sess.State != StatePathSelected && sess.State != StateDegraded`, negated.
abbrev pub is_watched : SessionState → Bool
is_watched path_selected = true
is_watched degraded = true
is_watched _ = false

abbrev is_degraded : SessionState → Bool
is_degraded degraded = true
is_degraded _ = false

-- `HealthTick` once a path is registered for the session: the probe and its answer.
unfoldable pub check_active :
    Env → Selector → Session → PathAdapter → World → Session × World × Option PathError
check_active env sel s p w =
    let answer = env.probe w.calls p in
    let w' = log (probed p answer) w in
    elim answer [
      | none ↦ (if is_degraded s.state then go (env.now w'.calls) path_selected s else s, w', none)
      | some e ↦ fail_over env sel s e w'
    ]

-- `HealthTick` on a selector and a session that are there.
unfoldable pub tick_session : Env → Selector → Session → World → Session × World × Option PathError
tick_session env sel s w =
    if not sel.cfg.enabled
    then (s, w, some selector_disabled)
    else if not (is_watched s.state)
    then (s, w, none)
    else if str_eq s.active_path ""
    then (s, w, none)
    else elim (lookup s.active_path sel.paths) [
      | none ↦ (go (env.now w.calls) degraded s, w, some (not_registered s.active_path))
      | some p ↦ check_active env sel s p w
    ]

-- `HealthTick`: a nil selector or session is an error.
unfoldable pub health_tick :
    Env → Option Selector → Option Session → World → Option Session × World × Option PathError
health_tick env (some sel) (some s) w =
    let (s', w', e) = tick_session env sel s w in (some s', w', e)
health_tick env _ sess w = (sess, w, some nil_argument)
