-- ===== src/PathSelect/Ladder/Handles.antt =====
-- Which handles are open, read off the calls made, and what a walk over the ladder does to them.
use Prim.Native.String.{String}
use cloudbridge_client.Prelude.{
  ◌≡◌, refl, sym, ◌∙◌, ap, arith, ◌==◌, Bool, false, ◌||◌, Option, none, some, List, [], ◌∷◌, ok,
  err, if◌then◌else◌, inl, inr, Option-cases, Result-cases,
}
use cloudbridge_client.Prelude.StringMap.{Map, lookup}
use cloudbridge_client.Prelude.Time.{Time}
use cloudbridge_client.PathSelect.Session.{
  SessionState, idle, authenticating, control_ready, probing, path_selected, failed, Handle,
  PathError, Session, transition, go,
}
use cloudbridge_client.PathSelect.Ladder.{
  Call, probed, opened, open_refused, released, World, Env, PathAdapter, OpenRequest, Selector,
  Walk, landed, exhausted, try_path, rung_error, ladder, close_replaced, enter_probing, conclude,
  ensure_session,
}

-- A release gives back one opening of that handle.
unfoldable pub release : Handle → List Handle → List Handle
release h [] = []
release h (k ∷ ks) = if k == h then ks else k ∷ release h ks

unfoldable pub is_open : Handle → List Handle → Bool
is_open h [] = false
is_open h (k ∷ ks) = (k == h) || is_open h ks

-- The handles opened and not yet released, after the calls (the latest first).
abbrev pub open_handles : List Call → List Handle
open_handles [] = []
open_handles (probed p e ∷ cs) = open_handles cs
open_handles (opened p req h ∷ cs) = h ∷ open_handles cs
open_handles (open_refused p req e ∷ cs) = open_handles cs
open_handles (released h ∷ cs) = release h (open_handles cs)

-- `Open` returns an instance that is not open already.
abbrev pub OpensFresh : Env → Type 0
OpensFresh env =
    (calls : List Call) (p : PathAdapter) (req : OpenRequest) (h : Handle)
    → env.open_path calls p req ≡ ok h
    → is_open h (open_handles calls) ≡ false

-- The handles that a session holds.
abbrev pub held : Option Handle → List Handle
held none = []
held (some h) = h ∷ []

-- What a walk leaves open: what was open before it and, if it landed, one handle more.
abbrev pub WalkOpens : World → World × Walk → Type 0
WalkOpens w (w', landed name p h) =
    (open_handles w'.calls ≡ h ∷ open_handles w.calls) × (is_open h (open_handles w.calls) ≡ false)
WalkOpens w (w', exhausted last) = open_handles w'.calls ≡ open_handles w.calls

pub WalkOpens-from :
    (w w' : World) (r : World × Walk)
    → open_handles w'.calls ≡ open_handles w.calls
    → WalkOpens w' r
    → WalkOpens w r
WalkOpens-from w w' (v, landed n p h) e k = (k.0 ∙ ap (◌∷◌ h) e, rw (← e) k.1)
WalkOpens-from w w' (v, exhausted last) e k = k ∙ e

module _ (env : Env) (fresh : OpensFresh env) where
  pub try_path_ok :
      (req : OpenRequest) (p : PathAdapter) (w : World) {h : Handle}
      → (try_path env req p w).1 ≡ ok h
      → (open_handles (try_path env req p w).0.calls ≡ h ∷ open_handles w.calls)
        × (is_open h (open_handles w.calls) ≡ false)
  unfolding try_path
  try_path_ok req p w {h} e =
      ground (arith, fresh (probed p (env.probe w.calls p) ∷ w.calls) p req h)

  pub try_path_err :
      (req : OpenRequest) (p : PathAdapter) (w : World) {x : PathError × Bool}
      → (try_path env req p w).1 ≡ err x
      → open_handles (try_path env req p w).0.calls ≡ open_handles w.calls
  unfolding try_path
  try_path_err req p w e = ground arith

  ladder-WalkOpens :
      (req : OpenRequest) (paths : Map PathAdapter) (order : List String) (last : Option PathError)
      (w : World)
      → WalkOpens w (ladder env req paths order last w)
  unfolding ladder
  ladder-WalkOpens req paths [] last w = refl
  ladder-WalkOpens req paths (n ∷ rest) last w = elim (Option-cases (lookup n paths)) [
    | inl miss ↦ rw (miss, ladder) (ladder-WalkOpens req paths rest _ w)
    | inr (p, hit) ↦ elim (Result-cases (try_path env req p w).1) [
      | inl (h, good) ↦ rw (hit, ladder) (rw (good, ladder) (try_path_ok req p w good))
      | inr (x, bad) ↦
          rw (hit, ladder)
            (rw (bad, ladder)
              (WalkOpens-from w (try_path env req p w).0
                (ladder env req paths rest (some (rung_error n x)) (try_path env req p w).0)
                (try_path_err req p w bad) (ladder-WalkOpens req paths rest _ _)))
    ]
  ]

-- Exactly the handle that the session holds is open.
abbrev pub NoLeak : Session → World → Type 0
NoLeak s w = open_handles w.calls ≡ held s.active

pub active-go : (now : Time) (next : SessionState) (s : Session) → (go now next s).active ≡ s.active
unfolding transition
active-go now next s = ground arith

active-enter_probing :
    (st : SessionState) (now : Time) (s : Session) → (enter_probing st now s).0.active ≡ s.active
unfolding enter_probing
active-enter_probing idle now s = ground (
  arith,
  active-go now authenticating s,
  active-go now control_ready (go now authenticating s),
  active-go now probing (go now control_ready (go now authenticating s)),
)
active-enter_probing authenticating now s = ground (
  arith,
  active-go now authenticating s,
  active-go now control_ready (go now authenticating s),
  active-go now probing (go now control_ready (go now authenticating s)),
)
active-enter_probing probing now s = refl
active-enter_probing _ now s = active-go now probing s

close_replaced_opens :
    (a : Option Handle) (h : Handle) (w : World)
    → open_handles w.calls ≡ h ∷ held a
    → is_open h (held a) ≡ false
    → open_handles (close_replaced a h w).calls ≡ h ∷ []
unfolding close_replaced release is_open
close_replaced_opens none h w e f = e
close_replaced_opens (some a) h w e f = ground arith

conclude-NoLeak :
    (env : Env) (s : Session) (w : World) (r : World × Walk)
    → NoLeak s w
    → WalkOpens w r
    → NoLeak (conclude env s r).0 (conclude env s r).1
unfolding conclude
conclude-NoLeak env s w (v, landed name p h) e k =
    let s' : Session = record s { active = some h; active_path = name; last_error = none } in
    let c = close_replaced s.active h v in
    close_replaced_opens s.active h v (rw (← e) k.0) (rw (← e) k.1)
    ∙ sym (ap held (active-go (env.now c.calls) path_selected s'))
conclude-NoLeak env s w (v, exhausted last) e k =
    let s' : Session = record s { last_error = last } in
    k ∙ e ∙ sym (ap held (active-go (env.now v.calls) failed s'))

-- If the handle that the session holds is the only one open, so it is after `Ensure`, however it
-- ends: a replaced handle is released, and a failed walk leaves nothing open behind it.
pub ensure-NoLeak :
    (env : Env) (sel : Selector) (s : Session) (req : OpenRequest) (w : World)
    → OpensFresh env
    → NoLeak s w
    → let (s', w', r) = ensure_session env sel s req w in NoLeak s' w'
unfolding ensure_session
ensure-NoLeak env sel s req w fresh e =
    let (s', refused) = enter_probing s.state (env.now w.calls) s in
    let e' : NoLeak s' w = e ∙ sym (ap held (active-enter_probing s.state (env.now w.calls) s)) in
    ground (
      arith,
      e',
      conclude-NoLeak env s' w (ladder env req sel.paths sel.cfg.order none w) e'
          (ladder-WalkOpens env fresh req sel.paths sel.cfg.order none w),
    )
