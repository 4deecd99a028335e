-- ===== src/PathSelect/Session/Runs.antt =====
-- What holds of a session over every list of requested transitions, refused ones included.

use Prim.Native.String.{String}
use cloudbridge_client.Prelude.{◌≡◌, refl, ◌⊎◌, inl, inr, arith, Bool, true, false, List, [], ◌∷◌}
use cloudbridge_client.Prelude.Time.{Time}
use cloudbridge_client.PathSelect.Session.{
  SessionState, unset, idle, authenticating, control_ready, probing, path_selected, failed, closed,
  SessionState-discrete, Session, allowed, or_idle, transition, go, new_session,
}

or_idle-cases : (s : SessionState) → (s ≡ unset) ⊎ (or_idle s ≡ s)
or_idle-cases unset = inl refl
or_idle-cases idle = inr refl
or_idle-cases _ = inr refl

-- The session after a list of requests, each with its time.
unfoldable pub run : List (Time × SessionState) → Session → Session
run [] s = s
run ((now, next) ∷ rest) s = run rest (go now next s)

go-closed :
    (now : Time) (next : SessionState) (s : Session)
    → s.state ≡ closed
    → (go now next s).state ≡ closed
unfolding transition
go-closed now next s h = elim (SessionState-discrete (or_idle s.state) next) [
  | yes p ↦ ground arith
  | no p ↦ ground arith
]

-- A closed session stays closed, whatever is requested of it.
run-closed :
    (requests : List (Time × SessionState)) (s : Session)
    → s.state ≡ closed
    → (run requests s).state ≡ closed
unfolding run
run-closed [] s h = h
run-closed ((now, next) ∷ rest) s h = run-closed rest (go now next s) (go-closed now next s h)

-- A request seen in a run.
abbrev pub Requested : SessionState → List (Time × SessionState) → Type 0
Requested gate [] = ⊥
Requested gate ((now, next) ∷ rest) = (next ≡ gate) ⊎ Requested gate rest

-- A set of states that only the edges into `gate` leave.
abbrev Gated : (SessionState → Bool) → SessionState → Type 0
Gated low gate =
    (from next : SessionState)
    → low from ≡ true
    → allowed (or_idle from) next ≡ true
    → (next ≡ gate) ⊎ (low next ≡ true)

go-low :
    (low : SessionState → Bool) (gate : SessionState)
    → Gated low gate
    → low idle ≡ true
    → (now : Time) (next : SessionState) (s : Session) → low s.state ≡ true
    → (next ≡ gate) ⊎ (low (go now next s).state ≡ true)
unfolding transition
go-low low gate gated i now next s h = elim (or_idle-cases s.state) [
  | inl u ↦ elim (SessionState-discrete (or_idle s.state) next) [
    | yes p ↦ inr (ground arith)
    | no p ↦ ground (arith, gated s.state next h)
  ]
  | inr k ↦ elim (SessionState-discrete (or_idle s.state) next) [
    | yes p ↦ inr (ground arith)
    | no p ↦ ground (arith, gated s.state next h)
  ]
]

run-low :
    (low : SessionState → Bool) (gate : SessionState)
    → Gated low gate
    → low idle ≡ true
    → (requests : List (Time × SessionState)) (s : Session) → low s.state ≡ true
    → Requested gate requests ⊎ (low (run requests s).state ≡ true)
unfolding run
run-low low gate gated i [] s h = inr h
run-low low gate gated i ((now, next) ∷ rest) s h = elim (go-low low gate gated i now next s h) [
  | inl e ↦ inl (inl e)
  | inr l ↦ elim (run-low low gate gated i rest (go now next s) l) [
    | inl r ↦ inl (inr r)
    | inr k ↦ inr k
  ]
]

abbrev before_login : SessionState → Bool
before_login unset = true
before_login idle = true
before_login closed = true
before_login _ = false

abbrev before_probing : SessionState → Bool
before_probing unset = true
before_probing idle = true
before_probing authenticating = true
before_probing control_ready = true
before_probing failed = true
before_probing closed = true
before_probing _ = false

before_login-Gated : Gated before_login authenticating
before_login-Gated unset next h a = ground arith
before_login-Gated idle next h a = ground arith
before_login-Gated closed next h a = ground arith
before_login-Gated _ next h a = cc

before_probing-Gated : Gated before_probing probing
before_probing-Gated unset next h a = ground arith
before_probing-Gated idle next h a = ground arith
before_probing-Gated authenticating next h a = ground arith
before_probing-Gated control_ready next h a = ground arith
before_probing-Gated failed next h a = ground arith
before_probing-Gated closed next h a = ground arith
before_probing-Gated _ next h a = cc

-- A session that starts as new and ends with a selected path was asked, on the way, to log in and
-- to probe: no list of requests gets round the login or the probing.
selected_needs_login_and_probing :
    (requests : List (Time × SessionState)) (now : Time) (id tenant local remote : String)
    → (run requests (new_session now id tenant local remote)).state ≡ path_selected
    → Requested authenticating requests × Requested probing requests
unfolding new_session
selected_needs_login_and_probing requests now id tenant local remote h =
    let s = new_session now id tenant local remote in
    (
      elim (run-low before_login authenticating before_login-Gated refl requests s refl) [
        | inl r ↦ r
        | inr l ↦ cc
      ],
      elim (run-low before_probing probing before_probing-Gated refl requests s refl) [
        | inl r ↦ r
        | inr l ↦ cc
      ],
    )
