-- ===== src/RelaySwitch/Replay.antt =====
-- What pkg/relay/autoswitch.go does as a protocol: connections and tear-downs in turn, and callbacks that are
-- told of each change.
use cloudbridge_client.Prelude.{
  ℕ, ◌+◌, ◌==◌, ◌≡◌, refl, ◌∙◌, arith, Bool, true, false, ◌&&◌, not, Option, none, some, List, [],
  ◌∷◌, ◌++◌, if◌then◌else◌, Bool-cases, inl, inr, ◌⊎◌,
}
use cloudbridge_client.RelaySwitch.{
  TransportMode, quic, wireguard, other, Effect, manager_made, connected, connect_failed, torn_down,
  added, launched, AutoSwitch, new_auto_switch, start, add_switch_callback, enter_wireguard,
  enter_quic, tear_down, is_quic, is_wireguard, switch_to_wireguard, switch_to_quic,
  perform_health_check, force_switch,
}

-- What an observer knows: the mode with the number of callbacks and, in WireGuard, whether the connection
-- is that of the current manager; or that the callbacks are still to be told of a change.
pub data Seen : Type 0 where
  at_quic going_up going_down : ℕ → Seen
  at_wireguard : Bool → ℕ → Seen

-- Every callback is launched once, with the change that was just made.
abbrev pub told : ℕ → ℕ → Seen → Option Seen
told k n after' = if k == n then some after' else none

-- From QUIC a connection may fail or lead to WireGuard, and from there a tear-down leads back; a new
-- manager leaves the connection of the one before as it is, and then there is nothing to tear down.
abbrev pub observe : Seen → Effect → Option Seen
observe (at_quic n) manager_made = some (at_quic n)
observe (at_quic n) added = some (at_quic (n + 1))
observe (at_quic n) connect_failed = some (at_quic n)
observe (at_quic n) connected = some (going_up n)
observe (going_up n) (launched k quic wireguard) = told k n (at_wireguard true n)
observe (at_wireguard b n) manager_made = some (at_wireguard false n)
observe (at_wireguard b n) added = some (at_wireguard b (n + 1))
observe (at_wireguard true n) torn_down = some (going_down n)
observe (going_down n) (launched k wireguard quic) = told k n (at_quic n)
observe (at_wireguard false n) (launched k wireguard quic) = told k n (at_quic n)
observe _ _ = none

unfoldable pub replay : List Effect → Seen → Option Seen
replay [] m = some m
replay (e ∷ es) m = elim (observe m e) [ none ↦ none | some m' ↦ replay es m' ]

replay-append :
    (es fs : List Effect) (m m' : Seen) → replay es m ≡ some m' → replay (es ++ fs) m ≡ replay fs m'
unfolding replay
replay-append [] fs m m' h = ground arith
replay-append (e ∷ es) fs m m' h =
    elim (observe m e)
        as (λ (o : Option Seen).
          elim o [ none ↦ none | some n ↦ replay es n ] ≡ some m'
          → elim o [ none ↦ none | some n ↦ replay (es ++ fs) n ] ≡ replay fs m') [
            | none ↦ λ k. cc
            | some n ↦ λ k. replay-append es fs n m' k
          ]
      h

replay_up :
    (n : ℕ) → replay (launched n quic wireguard ∷ []) (going_up n) ≡ some (at_wireguard true n)
unfolding replay
replay_up n = ground arith

-- In QUIC the manager, if any, is not connected, and in WireGuard there is one; and the effects replay to
-- this mode, the callbacks and the manager.
abbrev pub IsFollowed : AutoSwitch → Type 0
IsFollowed s =
    ((s.current_mode ≡ quic)
      × ((s.manager ≡ none) ⊎ (s.manager ≡ some false))
      × (replay s.effects (at_quic 0) ≡ some (at_quic s.callbacks)))
    ⊎ ((b : Bool) × (s.current_mode ≡ wireguard)
        × (s.manager ≡ some b)
        × (replay s.effects (at_quic 0) ≡ some (at_wireguard b s.callbacks)))

enter_wireguard-IsFollowed :
    (connects : Bool) (s : AutoSwitch)
    → s.current_mode ≡ quic
    → (s.manager ≡ none) ⊎ (s.manager ≡ some false)
    → replay s.effects (at_quic 0) ≡ some (at_quic s.callbacks)
    → IsFollowed (enter_wireguard connects s).0
unfolding enter_wireguard replay
enter_wireguard-IsFollowed connects s q (inl bare) h =
    let same : (enter_wireguard connects s).0 ≡ s = simp (enter_wireguard, bare) in
    rw same (inl (q, inl bare, h))
enter_wireguard-IsFollowed true s q (inr ready) h =
    let same : (enter_wireguard true s).0 ≡ record s {
      current_mode = wireguard;
      manager = some true;
      effects = s.effects ++ connected ∷ launched s.callbacks quic wireguard ∷ [];
    } =
      simp (enter_wireguard, ready, q) in
    rw same (
      inr (
        true,
        refl,
        refl,
        replay-append s.effects (connected ∷ launched s.callbacks quic wireguard ∷ []) (at_quic 0)
              (at_quic s.callbacks) h
            ∙ replay_up s.callbacks,
      ))
enter_wireguard-IsFollowed false s q (inr ready) h =
    let same : (enter_wireguard false s).0
        ≡ record s { effects = s.effects ++ connect_failed ∷ [] } =
      simp (enter_wireguard, ready) in
    rw same (
      inl (
        q,
        inr ready,
        replay-append s.effects (connect_failed ∷ []) (at_quic 0) (at_quic s.callbacks) h,
      ))

enter_quic_of :
    (s : AutoSwitch) (b : Bool)
    → s.current_mode ≡ wireguard
    → s.manager ≡ some b
    → enter_quic s ≡ record s {
      current_mode = quic;
      manager = some false;
      effects = s.effects ++ (tear_down (some b) ++ launched s.callbacks wireguard quic ∷ []);
    }
unfolding enter_quic
enter_quic_of s b q ready = rw (q, ready) refl

replay_quic :
    (b : Bool) (n : ℕ)
    → replay (tear_down (some b) ++ launched n wireguard quic ∷ []) (at_wireguard b n)
      ≡ some (at_quic n)
unfolding replay
replay_quic true n = ground arith
replay_quic false n = ground arith

enter_quic-IsFollowed :
    (s : AutoSwitch) (b : Bool)
    → s.current_mode ≡ wireguard
    → s.manager ≡ some b
    → replay s.effects (at_quic 0) ≡ some (at_wireguard b s.callbacks)
    → IsFollowed (enter_quic s)
enter_quic-IsFollowed s b q ready h = rw (enter_quic_of s b q ready) (
    inl (
      refl,
      inr refl,
      replay-append s.effects (tear_down (some b) ++ launched s.callbacks wireguard quic ∷ [])
            (at_quic 0) (at_wireguard b s.callbacks) h
          ∙ replay_quic b s.callbacks,
    ))

switch_to_wireguard-IsFollowed :
    (connects : Bool) (s : AutoSwitch)
    → IsFollowed s
    → IsFollowed (switch_to_wireguard connects s).0
unfolding switch_to_wireguard
switch_to_wireguard-IsFollowed connects s (inl (q, bare, h)) =
    let same : switch_to_wireguard connects s ≡ enter_wireguard connects s =
      simp (switch_to_wireguard, q) in
    rw same (enter_wireguard-IsFollowed connects s q bare h)
switch_to_wireguard-IsFollowed connects s (inr (b, q, ready, h)) =
    let same : (switch_to_wireguard connects s).0 ≡ s = simp (switch_to_wireguard, q) in
    rw same (inr (b, q, ready, h))

switch_to_quic-IsFollowed : (s : AutoSwitch) → IsFollowed s → IsFollowed (switch_to_quic s).0
unfolding switch_to_quic
switch_to_quic-IsFollowed s (inl (q, bare, h)) =
    let same : (switch_to_quic s).0 ≡ s = simp (switch_to_quic, q) in rw same (inl (q, bare, h))
switch_to_quic-IsFollowed s (inr (b, q, ready, h)) =
    let same : (switch_to_quic s).0 ≡ enter_quic s = simp (switch_to_quic, q) in
    rw same (enter_quic-IsFollowed s b q ready h)

-- The calls on the manager before it is stopped.
pub data Op : Type 0 where
  starts : Bool → Bool → Op
  adds_callback : Op
  checks : Bool → Bool → Op
  forces : TransportMode → Bool → Op

unfoldable pub after : Op → AutoSwitch → AutoSwitch
after (starts enabled made) s = (start enabled made s).0
after adds_callback s = add_switch_callback s
after (checks healthy connects) s = perform_health_check healthy connects s
after (forces mode connects) s = (force_switch mode connects s).0

unfoldable pub after_all : List Op → AutoSwitch → AutoSwitch
after_all [] s = s
after_all (op ∷ ops) s = after_all ops (after op s)

started-IsFollowed : (s : AutoSwitch) → IsFollowed s → IsFollowed (start true true s).0
unfolding start replay
started-IsFollowed s (inl (q, bare, h)) =
    inl
      (q, inr refl, replay-append s.effects (manager_made ∷ []) (at_quic 0) (at_quic s.callbacks) h)
started-IsFollowed s (inr (b, q, ready, h)) = inr (
  false,
  q,
  refl,
  replay-append s.effects (manager_made ∷ []) (at_quic 0) (at_wireguard b s.callbacks) h,
)

added-IsFollowed : (s : AutoSwitch) → IsFollowed s → IsFollowed (add_switch_callback s)
unfolding add_switch_callback replay
added-IsFollowed s (inl (q, bare, h)) =
    inl (q, bare, replay-append s.effects (added ∷ []) (at_quic 0) (at_quic s.callbacks) h)
added-IsFollowed s (inr (b, q, ready, h)) =
    inr
      (b, q, ready, replay-append s.effects (added ∷ []) (at_quic 0) (at_wireguard b s.callbacks) h)

after-IsFollowed : (op : Op) (s : AutoSwitch) → IsFollowed s → IsFollowed (after op s)
unfolding after start perform_health_check force_switch
after-IsFollowed (starts false made) s v = v
after-IsFollowed (starts true false) s v = v
after-IsFollowed (starts true true) s v = started-IsFollowed s v
after-IsFollowed adds_callback s v = added-IsFollowed s v
after-IsFollowed (checks healthy connects) s v =
    elim (Bool-cases (is_quic s.current_mode && not healthy)) [
      | inl down ↦
          rw (down, after, perform_health_check) (switch_to_wireguard-IsFollowed connects s v)
      | inr up ↦ elim (Bool-cases (is_wireguard s.current_mode && healthy)) [
        | inl back ↦
            rw (up, after, perform_health_check)
              (rw (back, after, perform_health_check) (switch_to_quic-IsFollowed s v))
        | inr keep ↦ rw (up, after, perform_health_check) (rw (keep, after, perform_health_check) v)
      ]
    ]
after-IsFollowed (forces quic connects) s v = switch_to_quic-IsFollowed s v
after-IsFollowed (forces wireguard connects) s v = switch_to_wireguard-IsFollowed connects s v
after-IsFollowed (forces (other name) connects) s v = v

after_all_from : (ops : List Op) (s : AutoSwitch) → IsFollowed s → IsFollowed (after_all ops s)
unfolding after_all
after_all_from [] s v = v
after_all_from (op ∷ ops) s v = after_all_from ops (after op s) (after-IsFollowed op s v)

-- After any starts, callbacks added, health checks and forced switches from a new manager: in QUIC the
-- WireGuard manager, if any, is not connected, in WireGuard there is one; and the effects replay from
-- QUIC to that state: connections and tear-downs take turns, but for a connection whose manager a later
-- Start replaced, which is never torn down; and after each change, and only then, as many callbacks
-- as were added are launched with it.
pub after_all-IsFollowed : (ops : List Op) → IsFollowed (after_all ops new_auto_switch)
unfolding new_auto_switch replay
after_all-IsFollowed ops = after_all_from ops new_auto_switch (inl (refl, inl refl, refl))
