-- ===== src/PathSelect/Health/Outcome.antt =====
-- `HealthTick`: the cooldown, and what a failover may do to the session.
use Prim.Native.String.{String}
use text.Mathlib.Text.{◌==◌ as str_eq}
use text.Mathlib.TextEquality.{eq_iff}
use cloudbridge_client.Prelude.{
  ◌+◌, ◌≡◌, ◌≢◌, refl, ◌∙◌, arith, Bool, true, false, not, ◌&&◌, ◌⊎◌, Option, none, some, List, [],
  ◌∷◌, Bool-cases, inl, inr, Option-cases, Result-cases, is_some,
}
use cloudbridge_client.Prelude.Int.{◌≤ℤ◌}
use cloudbridge_client.Prelude.Time.{Time, Duration, since}
use cloudbridge_client.Prelude.StringMap.{Map, lookup}
use cloudbridge_client.PathSelect.Session.{
  path_selected, degraded, probing, failed, Handle, PathError, Session, transition, go,
}
use cloudbridge_client.PathSelect.Ladder.{
  PathAdapter, OpenRequest, World, Env, Selector, Walk, landed, exhausted, probed, log, try_path,
  note_path_selected, note_path_fail, note_failover,
}
use cloudbridge_client.PathSelect.Ladder.Outcome.{go_edge}
use cloudbridge_client.PathSelect.Health.{
  reladder, close_active, or_error, settle, fail_over, failover_request, cooling, is_watched,
  check_active, tick_session,
}

go-degraded :
    (now : Time) (s : Session)
    → is_watched s.state ≡ true
    → go now degraded s ≡ record s { state = degraded; updated_at = now }
unfolding transition
go-degraded now s h = ground (arith, go_edge now degraded s)

-- What a walk of the failover loop found.
abbrev WalkMoves : Map PathAdapter → Bool → String → World → World × Walk → Type 0
WalkMoves paths soft active w (v, landed name p h) =
    (v.metrics ≡ w.metrics)
    × ((soft ≡ true) ⊎ (name ≢ active))
    × (is_some (lookup name paths) ≡ true)
WalkMoves paths soft active w (v, exhausted last) = v.metrics ≡ w.metrics

WalkMoves-from :
    (paths : Map PathAdapter) (soft : Bool) (active : String) (w w' : World) (r : World × Walk)
    → w'.metrics ≡ w.metrics
    → WalkMoves paths soft active w' r
    → WalkMoves paths soft active w r
WalkMoves-from paths soft active w w' (v, landed n p h) e k = (k.0 ∙ e, k.1, k.2)
WalkMoves-from paths soft active w w' (v, exhausted last) e k = k ∙ e

metrics-try_path :
    (env : Env) (req : OpenRequest) (p : PathAdapter) (w : World)
    → (try_path env req p w).0.metrics ≡ w.metrics
unfolding try_path
metrics-try_path env req p w = ground arith

not_skipped :
    (n active : String) (soft : Bool)
    → (str_eq n active && not soft) ≡ false
    → (soft ≡ true) ⊎ (n ≢ active)
not_skipped n active true h = inl refl
not_skipped n active false h = inr (λ e. ground (arith, eq_iff n active))

module _ (env : Env) (req : OpenRequest) (paths : Map PathAdapter) (soft : Bool)
    (active : String) where
  reladder-WalkMoves :
      (order : List String) (last : Option PathError) (w : World)
      → WalkMoves paths soft active w (reladder env req paths soft active order last w)
  unfolding reladder
  reladder-WalkMoves [] last w = refl
  reladder-WalkMoves (n ∷ rest) last w = elim (Bool-cases (str_eq n active && not soft)) [
    | inl skip ↦ rw (skip, reladder) (reladder-WalkMoves rest last w)
    | inr keep ↦ elim (Option-cases (lookup n paths)) [
      | inl miss ↦ rw (keep, reladder) (rw (miss, reladder) (reladder-WalkMoves rest last w))
      | inr (p, hit) ↦ elim (Result-cases (try_path env req p w).1) [
        | inl (h, good) ↦
            rw (keep, reladder)
              (rw (hit, reladder)
                (rw (good, reladder)
                  (metrics-try_path env req p w, not_skipped n active soft keep, rw hit)))
        | inr (x, bad) ↦
            rw (keep, reladder)
              (rw (hit, reladder)
                (rw (bad, reladder)
                  (WalkMoves-from paths soft active w (try_path env req p w).0
                    (reladder env req paths soft active rest (some x.0) (try_path env req p w).0)
                    (metrics-try_path env req p w)
                    (reladder-WalkMoves rest (some x.0) (try_path env req p w).0))))
      ]
    ]
  ]

-- A failover took place: it is counted and stamped, and the session has a registered path selected,
-- another one than before unless soft failing is on.
pub record FailedOver (env : Env) (sel : Selector) (s s' : Session) (w w' : World) : Type 0 where
  pub counted : w'.metrics.failover_count ≡ w.metrics.failover_count + 1
  pub stamped : s'.last_failover ≡ env.now w'.calls
  pub selected : s'.state ≡ path_selected
  pub moved : (sel.cfg.soft_fail ≡ true) ⊎ (s'.active_path ≢ s.active_path)
  pub registered : is_some (lookup s'.active_path sel.paths) ≡ true

-- No failover took place: neither its count nor its time has changed.
pub record Stayed (s s' : Session) (w w' : World) : Type 0 where
  pub uncounted : w'.metrics.failover_count ≡ w.metrics.failover_count
  pub unstamped : s'.last_failover ≡ s.last_failover

metrics-close_active : (a : Option Handle) (w : World) → (close_active a w).metrics ≡ w.metrics
unfolding close_active
metrics-close_active none w = refl
metrics-close_active (some a) w = refl

settle-FailedOver :
    (env : Env) (sel : Selector) (e : PathError) (s : Session) (w : World) (r : World × Walk)
    → s.state ≡ probing
    → WalkMoves sel.paths sel.cfg.soft_fail s.active_path w r
    → let (s', w', x) = settle env e s r in FailedOver env sel s s' w w' ⊎ Stayed s s' w w'
unfolding settle note_path_selected note_failover note_path_fail
settle-FailedOver env sel e s w (v, landed name p h) q k =
    let c = close_active s.active v in
    let t : Session = record s {
      active = some h;
      active_path = name;
      last_failover = env.now c.calls;
      last_error = none;
    } in
    let g = go_edge (env.now c.calls) path_selected t (rw q) in
    let same : c.metrics ≡ v.metrics = metrics-close_active s.active v in
    inl (
      rw g (record {
        counted = rw (same, k.0) refl;
        stamped = refl;
        selected = refl;
        moved = k.1;
        registered = k.2;
      }))
settle-FailedOver env sel e s w (v, exhausted last) q k =
    let t : Session = record s { last_error = some (or_error last e) } in
    let g = go_edge (env.now v.calls) failed t (rw q) in
    inr (rw g (record { uncounted = rw k; unstamped = refl }))

abbrev probing_session : Env → Session → PathError → World → Session
probing_session env s e w = record s {
  state = probing;
  last_error = some e;
  updated_at = env.now w.calls;
}

abbrev failover_walk : Env → Selector → Session → PathError → World → World × Walk
failover_walk env sel s e w =
    reladder env (failover_request (probing_session env s e w)) sel.paths sel.cfg.soft_fail
      s.active_path sel.cfg.order none w

fail_over-cooling :
    (env : Env) (sel : Selector) (s : Session) (e : PathError) (w : World)
    → is_watched s.state ≡ true
    → cooling (env.now w.calls) s.last_failover sel.cfg.failover_cooldown ≡ true
    → fail_over env sel s e w ≡ (
      record s { state = degraded; last_error = some e; updated_at = env.now w.calls },
      w,
      some e,
    )
unfolding fail_over
fail_over-cooling env sel s e w watched cool =
    ground (arith, go-degraded (env.now w.calls) (record s { last_error = some e }) watched)

fail_over_walks :
    (env : Env) (sel : Selector) (s : Session) (e : PathError) (w : World)
    → is_watched s.state ≡ true
    → cooling (env.now w.calls) s.last_failover sel.cfg.failover_cooldown ≡ false
    → fail_over env sel s e w
      ≡ settle env e (probing_session env s e w) (failover_walk env sel s e w)
unfolding fail_over
fail_over_walks env sel s e w watched due = ground (
  arith,
  go-degraded (env.now w.calls) (record s { last_error = some e }) watched,
  go_edge (env.now w.calls) probing
      (record s { state = degraded; last_error = some e; updated_at = env.now w.calls }) refl,
)

-- While the last failover is more recent than the cooldown, a tick whose probe fails makes no call
-- but that probe: it records the error, marks the session degraded, and returns the error.
tick_cooling :
    (env : Env) (sel : Selector) (s : Session) (w : World) (p : PathAdapter) (e : PathError)
    → sel.cfg.enabled ≡ true
    → is_watched s.state ≡ true
    → str_eq s.active_path "" ≡ false
    → lookup s.active_path sel.paths ≡ some p
    → env.probe w.calls p ≡ some e
    → cooling (env.now (probed p (some e) ∷ w.calls)) s.last_failover sel.cfg.failover_cooldown
      ≡ true
    → tick_session env sel s w ≡ (
      record s {
        state = degraded;
        last_error = some e;
        updated_at = env.now (probed p (some e) ∷ w.calls);
      },
      log (probed p (some e)) w,
      some e,
    )
unfolding tick_session check_active
tick_cooling env sel s w p e on watched named found bad cool =
    ground (arith, fail_over-cooling env sel s e (log (probed p (some e)) w) watched cool)

not_cooling :
    (now last : Time) (cooldown : Duration)
    → cooling now last cooldown ≡ false
    → (last ≡ 0) ⊎ (cooldown ≤ℤ since now last)
not_cooling now last cooldown h = ground arith

-- A failover is only made where the last one is unset or at least the cooldown ago.
pub fail_over_spaced :
    (env : Env) (sel : Selector) (s : Session) (e : PathError) (w : World)
    → is_watched s.state ≡ true
    → let (s', w', x) = fail_over env sel s e w in
      Stayed s s' w w'
      ⊎ (FailedOver env sel s s' w w'
          × ((s.last_failover ≡ 0)
              ⊎ (sel.cfg.failover_cooldown ≤ℤ since (env.now w.calls) s.last_failover)))
unfolding fail_over
fail_over_spaced env sel s e w watched =
    elim (Bool-cases (cooling (env.now w.calls) s.last_failover sel.cfg.failover_cooldown)) [
      | inl cool ↦
          rw (fail_over-cooling env sel s e w watched cool)
            (inl (record { uncounted = refl; unstamped = refl }))
      | inr due ↦
          rw (fail_over_walks env sel s e w watched due)
            (elim (settle-FailedOver env sel e (probing_session env s e w) w
              (failover_walk env sel s e w) refl
              (reladder-WalkMoves env (failover_request (probing_session env s e w)) sel.paths
                sel.cfg.soft_fail s.active_path sel.cfg.order none w)) [
                  | inl f ↦ inr (
                    record {
                      counted = f.counted;
                      stamped = f.stamped;
                      selected = f.selected;
                      moved = f.moved;
                      registered = f.registered;
                    },
                    not_cooling (env.now w.calls) s.last_failover sel.cfg.failover_cooldown due,
                  )
                  | inr st ↦ inl (record { uncounted = st.uncounted; unstamped = st.unstamped })
                ])
    ]
