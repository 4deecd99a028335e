-- ===== src/PathSelect/Ladder/Outcome.antt =====
-- The entry and the exit of `Ensure`: how it reaches the probing state, and what it leaves behind
-- once the loop has ended.
use Prim.Native.String.{String}
use cloudbridge_client.Prelude.{
  [], ◌≢◌, ◌≡◌, refl, arith, Bool, true, false, Option, none, some, ok, err, ap,
}
use cloudbridge_client.Prelude.Time.{Time}
use cloudbridge_client.PathSelect.Session.{
  SessionState, unset, idle, authenticating, control_ready, probing, path_selected, degraded,
  handing_over, failed, closed, Handle, PathError, Session, allowed, or_idle, transition, go,
}
use cloudbridge_client.PathSelect.Session.Edges.{go-Edge}
use cloudbridge_client.PathSelect.Ladder.{
  World, Env, Selector, OpenRequest, ladder, ensure_session, PathAdapter, enter_probing,
  close_replaced, note_path_selected, note_path_fail, conclude, landed, exhausted, or_all_failed,
  all_paths_failed,
}

-- The states from which `Ensure` may start to probe.
abbrev pub can_probe : SessionState → Bool
can_probe unset = false
can_probe handing_over = false
can_probe closed = false
can_probe _ = true

pub go_edge :
    (now : Time) (next : SessionState) (s : Session)
    → allowed (or_idle s.state) next ≡ true
    → go now next s ≡ record s { state = next; updated_at = now }
go_edge now next s a = ap (λ (r : Session × Option PathError). r.0) (go-Edge now next s a)

abbrev may_login : SessionState → Bool
may_login idle = true
may_login authenticating = true
may_login _ = false

go_edge_login :
    (now : Time) (s : Session)
    → may_login s.state ≡ true
    → go now authenticating s ≡ record s { state = authenticating; updated_at = now }
unfolding transition
go_edge_login now s a = ground (arith, go_edge now authenticating s)

-- The three transitions of the library's own login stub.
from_login :
    (now : Time) (s : Session)
    → may_login s.state ≡ true
    → ◌≡◌ {A = Session × Option PathError}
        (go now probing (go now control_ready (go now authenticating s)), none)
        (record s { state = probing; updated_at = now }, none)
from_login now s a = ground (
  arith,
  go_edge_login now s a,
  go_edge now control_ready (record s { state = authenticating; updated_at = now }) refl,
  go_edge now probing (record s { state = control_ready; updated_at = now }) refl,
)

enter_from :
    (st : SessionState) (now : Time) (s : Session)
    → s.state ≡ st
    → can_probe st ≡ true
    → (t : Time) × (enter_probing st now s ≡ (record s { state = probing; updated_at = t }, none))
unfolding enter_probing
enter_from idle now s e c = (now, from_login now s (rw e))
enter_from authenticating now s e c = (now, from_login now s (rw e))
enter_from control_ready now s e c = (now, rw (go_edge now probing s (rw e)))
enter_from probing now s e c = (s.updated_at, ground arith)
enter_from path_selected now s e c = (now, rw (go_edge now probing s (rw e)))
enter_from degraded now s e c = (now, rw (go_edge now probing s (rw e)))
enter_from failed now s e c = (now, rw (go_edge now probing s (rw e)))
enter_from _ now s e c = cc

-- From the probing state a landed walk ends in the selected state, with the new handle and its path
-- in place and no error.
pub conclude_landed :
    (env : Env) (s : Session) (w : World) (name : String) (p : PathAdapter) (h : Handle)
    → s.state ≡ probing
    → let w' = close_replaced s.active h w in
      conclude env s (w, landed name p h) ≡ (
        record s {
          state = path_selected;
          active_path = name;
          active = some h;
          last_error = none;
          updated_at = env.now w'.calls;
        },
        note_path_selected w',
        ok (p, h),
      )
unfolding conclude
conclude_landed env s w name p h e =
    let s' : Session = record s { active = some h; active_path = name; last_error = none } in
    rw (go_edge (env.now (close_replaced s.active h w).calls) path_selected s' (rw e))

-- A walk that found nothing ends in the failed state, keeps the handle, and records the last error.
pub conclude_exhausted :
    (env : Env) (s : Session) (w : World) (last : Option PathError)
    → s.state ≡ probing
    → conclude env s (w, exhausted last) ≡ (
      record s { state = failed; last_error = last; updated_at = env.now w.calls },
      note_path_fail w,
      err (all_paths_failed (or_all_failed last)),
    )
unfolding conclude
conclude_exhausted env s w last e =
    let s' : Session = record s { last_error = last } in
    rw (go_edge (env.now w.calls) failed s' (rw e))

-- Past the guards `Ensure` is the walk over the configured order, from the probing state.
pub ensure_walks :
    (env : Env) (sel : Selector) (s : Session) (req : OpenRequest) (w : World)
    → sel.cfg.enabled ≡ true
    → can_probe s.state ≡ true
    → sel.cfg.order ≢ []
    → (t : Time) × (ensure_session env sel s req w
        ≡ conclude env
            (record s { state = probing; updated_at = t })
            (ladder env req sel.paths sel.cfg.order none w))
unfolding ensure_session
ensure_walks env sel s req w on can some_path =
    let (t, e) = enter_from s.state (env.now w.calls) s refl can in (t, ground arith)
