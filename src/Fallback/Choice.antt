-- ===== src/Fallback/Choice.antt =====
-- pkg/transport/auto_switch.go: which mode `NextHealthy` moves to, and when it moves at all.
use Prim.Native.String.{String}
use text.Mathlib.Text.{◌==◌ as str_eq}
use text.Mathlib.TextEquality.{eq_iff}
use cloudbridge_client.Prelude.{
  ℕ, ◌+◌, ◌≡◌, ◌≢◌, refl, arith, ◌⊎◌, inl, inr, true, false, Bool-cases, List, [], ◌∷◌,
}
use cloudbridge_client.Prelude.Int.{◌≤ℤ◌}
use cloudbridge_client.Prelude.Time.{since}
use cloudbridge_client.Fallback.{
  AutoSwitchManager, Moment, can_switch, is_healthy, better_than_current, search, next_healthy,
}

-- A mode is one of the list.
abbrev pub Listed : String → List String → Type 0
Listed mode [] = ⊥
Listed mode (x ∷ xs) = (mode ≡ x) ⊎ Listed mode xs

-- The manager has moved, at the time of the stamp, to another mode of the list, which was healthy and
-- better when it was asked.
pub record IsMoved (t : Moment) (modes : List String) (m m' : AutoSwitchManager) : Type 0 where
  pub mode : String
  pub listed : Listed mode modes
  pub another : mode ≢ m.current_mode
  pub question : ℕ
  pub healthy : is_healthy question mode m ≡ true
  pub better : better_than_current t (question + 1) mode m ≡ true
  pub moved : m' ≡ record m { current_mode = mode; last_switch = t.stamp }

IsMoved-later :
    (t : Moment) (x : String) (modes : List String) (m m' : AutoSwitchManager)
    → IsMoved t modes m m'
    → IsMoved t (x ∷ modes) m m'
IsMoved-later t x modes m m' h = record {
  mode = h.mode;
  listed = inr h.listed;
  another = h.another;
  question = h.question;
  healthy = h.healthy;
  better = h.better;
  moved = h.moved;
}

-- The loop either leaves the manager as it is or moves it.
Outcome : Moment → List String → AutoSwitchManager → AutoSwitchManager → Type 0
Outcome t modes m m' = (m' ≡ m) ⊎ IsMoved t modes m m'

later :
    (t : Moment) (x : String) (modes : List String) (m m' : AutoSwitchManager)
    → Outcome t modes m m'
    → Outcome t (x ∷ modes) m m'
unfolding Outcome
later t x modes m m' (inl same) = inl same
later t x modes m m' (inr h) = inr (IsMoved-later t x modes m m' h)

search_outcome :
    (t : Moment) (n : ℕ) (modes : List String) (m : AutoSwitchManager)
    → Outcome t modes m (search t n modes m)
unfolding Outcome search
search_outcome t n [] m = inl refl
search_outcome t n (x ∷ modes) m = elim (Bool-cases (str_eq x m.current_mode)) [
  | inl current ↦ rw (current, search) (later t x modes m _ (search_outcome t n modes m))
  | inr other ↦ elim (Bool-cases (is_healthy n x m)) [
    | inr ill ↦ rw (other, ill, search) (later t x modes m _ (search_outcome t (n + 1) modes m))
    | inl healthy ↦ elim (Bool-cases (better_than_current t (n + 1) x m)) [
      | inr worse ↦
          rw (other, healthy, worse, search)
            (later t x modes m _ (search_outcome t (n + 3) modes m))
      | inl better ↦ inr (record {
        mode = x;
        listed = inl refl;
        another = λ e. absurd (ground (arith, eq_iff x m.current_mode));
        question = n;
        healthy = healthy;
        better = better;
        moved = ground arith;
      })
    ]
  ]
]

can_switch_over :
    (t : Moment) (m : AutoSwitchManager)
    → can_switch t m ≡ true
    → (m.cooldown ≤ℤ since t.first m.last_switch) × (m.min_dwell ≤ℤ since t.second m.last_switch)
unfolding can_switch
can_switch_over t m h = (ground arith, ground arith)

-- Where the loop is entered, the current mode is ill or the two times are over.
searched :
    (t : Moment) (m : AutoSwitchManager)
    → (next_healthy t m ≡ m)
      ⊎ ((next_healthy t m ≡ search t (t.base + 1) m.order m)
          × ((is_healthy t.base m.current_mode m ≡ false) ⊎ (can_switch t m ≡ true)))
unfolding next_healthy
searched t m = ground arith

-- `NextHealthy` leaves the manager as it is, or moves it to another mode of its order that was healthy
-- and better; and it moves it away from a mode that is healthy only when both the cooldown and the
-- shortest stay are over.
pub next_healthy_moves :
    (t : Moment) (m : AutoSwitchManager)
    → (next_healthy t m ≡ m)
      ⊎ (IsMoved t m.order m (next_healthy t m)
          × ((is_healthy t.base m.current_mode m ≡ false)
              ⊎ ((m.cooldown ≤ℤ since t.first m.last_switch)
                  × (m.min_dwell ≤ℤ since t.second m.last_switch))))
unfolding Outcome
next_healthy_moves t m = elim (searched t m) [
  | inl same ↦ inl same
  | inr (entered, why) ↦ elim (search_outcome t (t.base + 1) m.order m) [
    | inl same ↦ inl (rw entered same)
    | inr moved ↦ inr (
      rw entered moved,
      elim why [ inl ill ↦ inl ill | inr over ↦ inr (can_switch_over t m over) ],
    )
  ]
]

search_takes :
    (t : Moment) (n : ℕ) (modes : List String) (m : AutoSwitchManager) (mode : String)
    → Listed mode modes
    → mode ≢ m.current_mode
    → ((k : ℕ) → is_healthy k mode m ≡ true)
    → ((k : ℕ) → better_than_current t k mode m ≡ true)
    → (search t n modes m).current_mode ≢ m.current_mode
unfolding search
search_takes t n [] m mode h other healthy better = elim h [ ]
search_takes t n (x ∷ modes) m mode (inl e) other healthy better =
    let up : is_healthy n x m ≡ true = rw (← e) (healthy n) in
    let good : better_than_current t (n + 1) x m ≡ true = rw (← e) (better (n + 1)) in
    let moves : x ≢ m.current_mode = rw (← e) other in ground (arith, eq_iff x m.current_mode)
search_takes t n (x ∷ modes) m mode (inr h) other healthy better =
    let skipped = search_takes t n modes m mode h other healthy better in
    let unhealthy = search_takes t (n + 1) modes m mode h other healthy better in
    let worse = search_takes t (n + 3) modes m mode h other healthy better in
    ground (arith, eq_iff x m.current_mode)

-- Where another mode of the order answers every question as healthy and better, and the current mode is
-- ill or the cooldown and the shortest stay are over, `NextHealthy` leaves the current mode.
pub better_mode_taken :
    (t : Moment) (m : AutoSwitchManager) (mode : String)
    → Listed mode m.order
    → mode ≢ m.current_mode
    → ((k : ℕ) → is_healthy k mode m ≡ true)
    → ((k : ℕ) → better_than_current t k mode m ≡ true)
    → (is_healthy t.base m.current_mode m ≡ false) ⊎ (can_switch t m ≡ true)
    → (next_healthy t m).current_mode ≢ m.current_mode
unfolding next_healthy
better_mode_taken t m mode h other healthy better may =
    let taken = search_takes t (t.base + 1) m.order m mode h other healthy better in ground arith
