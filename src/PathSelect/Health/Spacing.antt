-- ===== src/PathSelect/Health/Spacing.antt =====
-- The spacing of failovers over the whole of `HealthTick`.

use text.Mathlib.Text.{◌==◌ as str_eq}
use cloudbridge_client.Prelude.{
  ◌≡◌, refl, arith, true, ◌⊎◌, Option, none, some, ◌∷◌, Bool-cases, inl, inr, Option-cases,
}
use cloudbridge_client.Prelude.Int.{◌≤ℤ◌}
use cloudbridge_client.Prelude.Time.{Time, since}
use cloudbridge_client.Prelude.StringMap.{lookup}
use cloudbridge_client.PathSelect.Session.{
  SessionState, path_selected, degraded, PathError, selector_disabled, not_registered, Session,
  transition, go,
}
use cloudbridge_client.PathSelect.Ladder.{Call, PathAdapter, World, Env, Selector, probed, log}
use cloudbridge_client.PathSelect.Health.{is_watched, check_active, tick_session}
use cloudbridge_client.PathSelect.Health.Outcome.{FailedOver, Stayed, fail_over_spaced}

last_failover-go :
    (now : Time) (next : SessionState) (s : Session)
    → (go now next s).last_failover ≡ s.last_failover
unfolding transition
last_failover-go now next s = ground arith

-- What a tick may come to.
abbrev Spaced : Env → Selector → Session → World → Session × World × Option PathError → Type 0
Spaced env sel s w (s', w', x) =
    Stayed s s' w w'
    ⊎ (FailedOver env sel s s' w w'
        × ((c : Call) × ((s.last_failover ≡ 0)
              ⊎ (sel.cfg.failover_cooldown ≤ℤ since (env.now (c ∷ w.calls)) s.last_failover))))

check_active-Spaced :
    (env : Env) (sel : Selector) (s : Session) (p : PathAdapter) (w : World)
    → is_watched s.state ≡ true
    → Spaced env sel s w (check_active env sel s p w)
unfolding check_active
check_active-Spaced env sel s p w watched = elim (Option-cases (env.probe w.calls p)) [
  | inl good ↦
      rw (good, check_active)
        (inl (record {
          uncounted = refl;
          unstamped =
              ground (arith, last_failover-go (env.now (probed p none ∷ w.calls)) path_selected s);
        }))
  | inr (e, bad) ↦
      rw (bad, check_active)
        (elim (fail_over_spaced env sel s e (log (probed p (env.probe w.calls p)) w) watched) [
          | inl st ↦ inl (record { uncounted = st.uncounted; unstamped = st.unstamped })
          | inr (f, due) ↦ inr (
            record {
              counted = f.counted;
              stamped = f.stamped;
              selected = f.selected;
              moved = f.moved;
              registered = f.registered;
            },
            (probed p (env.probe w.calls p), due),
          )
        ])
]

-- The three ways through the guards of a tick: nothing is done, the path is no longer registered, or
-- it is checked.
tick_ends :
    (env : Env) (sel : Selector) (s : Session) (w : World)
    → ((x : Option PathError) × (tick_session env sel s w ≡ (s, w, x)))
      ⊎ (((x : Option PathError) × (tick_session env sel s w
              ≡ (go (env.now w.calls) degraded s, w, x)))
          ⊎ ((p : PathAdapter) × (is_watched s.state ≡ true)
              × (tick_session env sel s w ≡ check_active env sel s p w)))
unfolding tick_session
tick_ends env sel s w = elim (Bool-cases sel.cfg.enabled) [
  | inr off ↦ inl (some selector_disabled, ground arith)
  | inl on ↦ elim (Bool-cases (is_watched s.state)) [
    | inr other ↦ inl (none, ground arith)
    | inl watched ↦ elim (Bool-cases (str_eq s.active_path "")) [
      | inl unnamed ↦ inl (none, ground arith)
      | inr named ↦ elim (Option-cases (lookup s.active_path sel.paths)) [
        | inl miss ↦ inr (inl (some (not_registered s.active_path), ground arith))
        | inr (p, hit) ↦ inr (inr (p, watched, ground arith))
      ]
    ]
  ]
]

-- Two failovers are at least a cooldown apart: after a health tick either no failover was counted
-- and its time stands, or one was, stamped with the time of its end, to a registered path other
-- than the one that failed (unless soft failing is on), and the one before it was unset or at
-- least the cooldown earlier than the check, which follows the one call `c`.
pub tick_spaces_failovers :
    (env : Env) (sel : Selector) (s : Session) (w : World)
    → let (s', w', x) = tick_session env sel s w in
      Stayed s s' w w'
      ⊎ (FailedOver env sel s s' w w'
          × ((c : Call) × ((s.last_failover ≡ 0)
                ⊎ (sel.cfg.failover_cooldown ≤ℤ since (env.now (c ∷ w.calls)) s.last_failover))))
unfolding tick_session
tick_spaces_failovers env sel s w = elim (tick_ends env sel s w) [
  | inl (x, e) ↦ rw e (inl (record { uncounted = refl; unstamped = refl }))
  | inr (inl (x, e)) ↦
      rw e (
        inl
          (record { uncounted = refl; unstamped = last_failover-go (env.now w.calls) degraded s }))
  | inr (inr (p, watched, e)) ↦ rw e (check_active-Spaced env sel s p w watched)
]
