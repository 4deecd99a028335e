-- ===== src/PathSelect/Health/Failover.antt =====
-- `HealthTick` and the handles: the failover releases the old handle and opens one new one.
use Prim.Native.String.{String}
use text.Mathlib.Text.{◌==◌ as str_eq}
use cloudbridge_client.Prelude.{
  ◌≡◌, refl, sym, ◌∙◌, ap, arith, Bool, false, not, ◌&&◌, Option, none, some, List, [], ◌∷◌,
  Bool-cases, inl, inr, Option-cases, Result-cases,
}
use cloudbridge_client.Prelude.StringMap.{Map, lookup}
use cloudbridge_client.PathSelect.Session.{
  path_selected, degraded, probing, failed, Handle, PathError, Session, go,
}
use cloudbridge_client.PathSelect.Ladder.{
  PathAdapter, OpenRequest, World, Env, Selector, Walk, landed, exhausted, try_path, probed,
  note_path_selected, note_path_fail, note_failover,
}
use cloudbridge_client.PathSelect.Ladder.Handles.{
  OpensFresh, NoLeak, WalkOpens, WalkOpens-from, open_handles, held, is_open, release, try_path_ok,
  try_path_err, active-go,
}
use cloudbridge_client.PathSelect.Health.{
  reladder, close_active, or_error, settle, fail_over, failover_request, check_active, tick_session,
}

module _ (env : Env) (fresh : OpensFresh env) (req : OpenRequest) (paths : Map PathAdapter)
    (soft : Bool) (active : String) where
  reladder-WalkOpens :
      (order : List String) (last : Option PathError) (w : World)
      → WalkOpens w (reladder env req paths soft active order last w)
  unfolding reladder
  reladder-WalkOpens [] last w = refl
  reladder-WalkOpens (n ∷ rest) last w = elim (Bool-cases (str_eq n active && not soft)) [
    | inl skip ↦ rw (skip, reladder) (reladder-WalkOpens rest last w)
    | inr keep ↦ elim (Option-cases (lookup n paths)) [
      | inl miss ↦ rw (keep, reladder) (rw (miss, reladder) (reladder-WalkOpens rest last w))
      | inr (p, hit) ↦ elim (Result-cases (try_path env req p w).1) [
        | inl (h, good) ↦
            rw (keep, reladder)
              (rw (hit, reladder) (rw (good, reladder) (try_path_ok env fresh req p w good)))
        | inr (x, bad) ↦
            rw (keep, reladder)
              (rw (hit, reladder)
                (rw (bad, reladder)
                  (WalkOpens-from w (try_path env req p w).0
                    (reladder env req paths soft active rest (some x.0) (try_path env req p w).0)
                    (try_path_err env fresh req p w bad)
                    (reladder-WalkOpens rest (some x.0) (try_path env req p w).0))))
      ]
    ]
  ]

close_active_opens :
    (a : Option Handle) (h : Handle) (w : World)
    → open_handles w.calls ≡ h ∷ held a
    → is_open h (held a) ≡ false
    → open_handles (close_active a w).calls ≡ h ∷ []
unfolding close_active release is_open
close_active_opens none h w e f = e
close_active_opens (some a) h w e f = ground arith

settle-NoLeak :
    (env : Env) (e : PathError) (s : Session) (w : World) (r : World × Walk)
    → NoLeak s w
    → WalkOpens w r
    → NoLeak (settle env e s r).0 (settle env e s r).1
unfolding settle note_path_selected note_failover note_path_fail
settle-NoLeak env e s w (v, landed name p h) q k =
    let c = close_active s.active v in
    let s' : Session = record s {
      active = some h;
      active_path = name;
      last_failover = env.now c.calls;
      last_error = none;
    } in
    close_active_opens s.active h v (rw (← q) k.0) (rw (← q) k.1)
    ∙ sym (ap held (active-go (env.now c.calls) path_selected s'))
settle-NoLeak env e s w (v, exhausted last) q k =
    let s' : Session = record s { last_error = some (or_error last e) } in
    k ∙ q ∙ sym (ap held (active-go (env.now v.calls) failed s'))

fail_over-NoLeak :
    (env : Env) (sel : Selector) (s : Session) (e : PathError) (w : World)
    → OpensFresh env
    → NoLeak s w
    → NoLeak (fail_over env sel s e w).0 (fail_over env sel s e w).1
unfolding fail_over
fail_over-NoLeak env sel s e w fresh q =
    let s' : Session = go (env.now w.calls) degraded (record s { last_error = some e }) in
    let s'' : Session = go (env.now w.calls) probing s' in
    let q' : NoLeak s' w =
      q ∙ sym (ap held (active-go (env.now w.calls) degraded (record s { last_error = some e }))) in
    let q'' : NoLeak s'' w = q' ∙ sym (ap held (active-go (env.now w.calls) probing s')) in
    ground (
      arith,
      q',
      settle-NoLeak env e s'' w
          (reladder env (failover_request s'') sel.paths sel.cfg.soft_fail s''.active_path
            sel.cfg.order none w)
          q''
          (reladder-WalkOpens env fresh (failover_request s'') sel.paths sel.cfg.soft_fail
            s''.active_path sel.cfg.order none w),
    )

check_active-NoLeak :
    (env : Env) (sel : Selector) (s : Session) (p : PathAdapter) (w : World)
    → OpensFresh env
    → NoLeak s w
    → NoLeak (check_active env sel s p w).0 (check_active env sel s p w).1
unfolding check_active
check_active-NoLeak env sel s p w fresh q = elim (Option-cases (env.probe w.calls p)) [
  | inl good ↦
      ground
        (arith, q, active-go (env.now (probed p (env.probe w.calls p) ∷ w.calls)) path_selected s)
  | inr (e, bad) ↦ rw (bad, check_active) (fail_over-NoLeak env sel s e _ fresh q)
]

-- If the handle that the session holds is the only one open, so it is after a health tick, whether
-- it fails over, only degrades, or does nothing.
pub tick-NoLeak :
    (env : Env) (sel : Selector) (s : Session) (w : World)
    → OpensFresh env
    → NoLeak s w
    → let (s', w', e) = tick_session env sel s w in NoLeak s' w'
unfolding tick_session
tick-NoLeak env sel s w fresh q = elim (Option-cases (lookup s.active_path sel.paths)) [
  | inl miss ↦ ground (arith, active-go (env.now w.calls) degraded s)
  | inr (p, hit) ↦ ground (arith, check_active-NoLeak env sel s p w fresh q)
]
