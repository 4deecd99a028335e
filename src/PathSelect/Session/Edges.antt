-- ===== src/PathSelect/Session/Edges.antt =====
-- The diagram of docs/plans/PATH_SELECTION_STATE_MACHINE.md as a relation, the edges that the table
-- of session.go has beyond it, and `Transition` against both.
use cloudbridge_client.Prelude.{none, some, ◌≡◌, refl, ◌⊎◌, ◌↔◌, inl, inr, arith, true, Bool-cases}
use cloudbridge_client.Prelude.Time.{Time}
use cloudbridge_client.PathSelect.Session.{
  SessionState, idle, authenticating, control_ready, probing, path_selected, degraded, handing_over,
  failed, closed, SessionState-discrete, invalid_transition, Session, allowed, or_idle, transition,
}

-- The edges that the document draws.
pub data Diagram : SessionState → SessionState → Type 0 where
  start : Diagram idle authenticating
  accepted : Diagram authenticating control_ready
  rejected : Diagram authenticating failed
  need_path : Diagram control_ready probing
  first_pass : Diagram probing path_selected
  exhausted : Diagram probing failed
  health_fail : Diagram path_selected degraded
  better_path : Diagram path_selected handing_over
  user_stop : Diagram path_selected closed
  re_ladder : Diagram degraded probing
  candidate_ready : Diagram degraded handing_over
  no_path : Diagram degraded failed
  cutover : Diagram handing_over path_selected
  keep_old : Diagram handing_over degraded
  both_dead : Diagram handing_over failed
  retry : Diagram failed probing
  give_up : Diagram failed closed

-- The edges of the table beyond the diagram: a session may be closed from every open state, may
-- fail once it has a control channel, re-probes or recovers in place, and may log in again.
pub data Extra : SessionState → SessionState → Type 0 where
  close_idle : Extra idle closed
  close_authenticating : Extra authenticating closed
  close_ready : Extra control_ready closed
  close_probing : Extra probing closed
  close_degraded : Extra degraded closed
  close_handing_over : Extra handing_over closed
  fail_ready : Extra control_ready failed
  fail_selected : Extra path_selected failed
  reprobe : Extra path_selected probing
  recover : Extra degraded path_selected
  login_again : Extra failed authenticating

abbrev pub Edge : SessionState → SessionState → Type 0
Edge from next = Diagram from next ⊎ Extra from next

ruleset diagram = (
  start, accepted, rejected, need_path, first_pass, exhausted, health_fail, better_path, user_stop,
  re_ladder, candidate_ready, no_path, cutover, keep_old, both_dead, retry, give_up,
)

ruleset extra = (
  close_idle, close_authenticating, close_ready, close_probing, close_degraded, close_handing_over,
  fail_ready, fail_selected, reprobe, recover, login_again,
)

Diagram-allowed : {from next : SessionState} → Diagram from next → allowed from next ≡ true
Diagram-allowed start = refl
Diagram-allowed _ = refl

Extra-allowed : {from next : SessionState} → Extra from next → allowed from next ≡ true
Extra-allowed close_idle = refl
Extra-allowed _ = refl

Edge-allowed : {from next : SessionState} → Edge from next → allowed from next ≡ true
Edge-allowed (inl d) = Diagram-allowed d
Edge-allowed (inr x) = Extra-allowed x

allowed-Edge : (from next : SessionState) → allowed from next ≡ true → Edge from next
allowed-Edge idle authenticating h = inl start
allowed-Edge idle closed h = inr close_idle
allowed-Edge authenticating control_ready h = inl accepted
allowed-Edge authenticating failed h = inl rejected
allowed-Edge authenticating closed h = inr close_authenticating
allowed-Edge control_ready probing h = inl need_path
allowed-Edge control_ready failed h = inr fail_ready
allowed-Edge control_ready closed h = inr close_ready
allowed-Edge probing path_selected h = inl first_pass
allowed-Edge probing failed h = inl exhausted
allowed-Edge probing closed h = inr close_probing
allowed-Edge path_selected degraded h = inl health_fail
allowed-Edge path_selected handing_over h = inl better_path
allowed-Edge path_selected probing h = inr reprobe
allowed-Edge path_selected failed h = inr fail_selected
allowed-Edge path_selected closed h = inl user_stop
allowed-Edge degraded probing h = inl re_ladder
allowed-Edge degraded handing_over h = inl candidate_ready
allowed-Edge degraded path_selected h = inr recover
allowed-Edge degraded failed h = inl no_path
allowed-Edge degraded closed h = inr close_degraded
allowed-Edge handing_over path_selected h = inl cutover
allowed-Edge handing_over degraded h = inl keep_old
allowed-Edge handing_over failed h = inl both_dead
allowed-Edge handing_over closed h = inr close_handing_over
allowed-Edge failed probing h = inl retry
allowed-Edge failed authenticating h = inr login_again
allowed-Edge failed closed h = inl give_up
allowed-Edge _ _ h = cc

-- `Transition` succeeds exactly if the state (an unset one counts as idle) is already the one asked
-- for, or an edge of the diagram or of the table's additions leads there.
pub transition-Edge :
    (now : Time) (next : SessionState) (s : Session)
    → ((transition now next s).1 ≡ none)
      ↔ ((or_idle s.state ≡ next) ⊎ (Diagram (or_idle s.state) next ⊎ Extra (or_idle s.state) next))
unfolding transition
transition-Edge now next s = elim (SessionState-discrete (or_idle s.state) next) [
  | yes p ↦ (λ _. inl p, λ _. ground arith)
  | no p ↦ (
    λ e. inr (allowed-Edge _ _ (ground arith)),
    λ e. elim e [ inl q ↦ absurd (p q) | inr x ↦ ground (arith, Edge-allowed x) ],
  )
]

-- What `Transition` leaves: on success the state asked for and the time; on a refusal the error
-- names both states, and the state and its time stay (an unset state becomes idle). Nothing else of
-- the session ever changes.
transition_effect :
    (now : Time) (next : SessionState) (s : Session)
    → (transition now next s ≡ (record s { state = next; updated_at = now }, none))
      ⊎ (transition now next s ≡ (
        record s { state = or_idle s.state },
        some (invalid_transition (or_idle s.state) next),
      ))
unfolding transition
transition_effect now next s = elim (SessionState-discrete (or_idle s.state) next) [
  | yes p ↦ inl (ground arith)
  | no p ↦ elim (Bool-cases (allowed (or_idle s.state) next)) [
    | inl a ↦ inl (ground arith)
    | inr a ↦ inr (ground arith)
  ]
]

-- A step along an edge, as the callers that drop the error use it.
pub go-Edge :
    (now : Time) (next : SessionState) (s : Session)
    → allowed (or_idle s.state) next ≡ true
    → transition now next s ≡ (record s { state = next; updated_at = now }, none)
unfolding transition
go-Edge now next s a = elim (SessionState-discrete (or_idle s.state) next) [
  | yes p ↦ ground arith
  | no p ↦ ground arith
]
