-- ===== src/PathSelect/Ladder/Order.antt =====
-- Which path `Ensure` takes: the first one, in the configured order, that is registered and answers.
use Prim.Native.String.{String}
use cloudbridge_client.Prelude.{
  ◌≡◌, ◌≢◌, refl, arith, Result-cases, Bool, true, false, Option, none, some, List, [], ◌∷◌, Result,
  ok, err, if◌then◌else◌, inl, inr, Option-cases, is_some,
}
use cloudbridge_client.Prelude.StringMap.{Map, lookup}
use cloudbridge_client.PathSelect.Session.{
  probing, path_selected, failed, Handle, PathError, all_paths_failed, Session,
}
use cloudbridge_client.PathSelect.Ladder.{
  World, Env, PathAdapter, OpenRequest, Selector, landed, exhausted, try_path, ladder,
  ensure_session, note_path_selected, note_path_fail, close_replaced,
}
use cloudbridge_client.PathSelect.Ladder.Outcome.{
  can_probe, ensure_walks, conclude_landed, conclude_exhausted,
}

abbrev is_ok : Result (PathError × Bool) Handle → Bool
is_ok (ok h) = true
is_ok (err e) = false

-- An environment in which a path either is up, so that its probe and its opening succeed whenever
-- they are tried, or is down. Handles and errors may differ from call to call.
abbrev pub AnswersBy : (PathAdapter → Bool) → Env → OpenRequest → Type 0
AnswersBy up env req = (p : PathAdapter) (w : World) → is_ok (try_path env req p w).1 ≡ up p

-- The specification: the first name in the order with a registered adapter that is up.
abbrev pub first_up :
    (PathAdapter → Bool) → Map PathAdapter → List String → Option (String × PathAdapter)
first_up up paths [] = none
first_up up paths (name ∷ rest) = elim (lookup name paths) [
  | none ↦ first_up up paths rest
  | some p ↦ if up p then some (name, p) else first_up up paths rest
]

module _ (up : PathAdapter → Bool) (env : Env) (req : OpenRequest) (paths : Map PathAdapter)
    (answers : AnswersBy up env req) where
  ladder_found :
      (order : List String) (last : Option PathError) (w : World) (name : String) (p : PathAdapter)
      → first_up up paths order ≡ some (name, p)
      → (w' : World) × (h : Handle) × (ladder env req paths order last w ≡ (w', landed name p h))
  unfolding ladder
  ladder_found [] last w name p e = cc
  ladder_found (n ∷ rest) last w name p e = elim (Option-cases (lookup n paths)) [
    | inl miss ↦ rw (miss, ladder) (ladder_found rest _ w name p (ground arith))
    | inr (q, hit) ↦ elim (Result-cases (try_path env req q w).1) [
      | inl (h, good) ↦ ((try_path env req q w).0, h, ground (arith, answers q w))
      | inr (x, bad) ↦
          rw (hit, ladder)
            (rw (bad, ladder) (ladder_found rest _ _ name p (ground (arith, answers q w))))
    ]
  ]

  -- A walk that missed has an error to show for its last rung.
  ladder_error :
      (order : List String) (last : Option PathError) (w : World)
      → is_some last ≡ true
      → first_up up paths order ≡ none
      → (w' : World) × (e : PathError) × (ladder env req paths order last w
          ≡ (w', exhausted (some e)))
  unfolding ladder
  ladder_error [] none w l e = cc
  ladder_error [] (some x) w l e = (w, x, refl)
  ladder_error (n ∷ rest) last w l e = elim (Option-cases (lookup n paths)) [
    | inl miss ↦ rw (miss, ladder) (ladder_error rest _ w refl (ground arith))
    | inr (q, hit) ↦ elim (Result-cases (try_path env req q w).1) [
      | inl (h, good) ↦ absurd (ground (arith, answers q w))
      | inr (x, bad) ↦
          rw (hit, ladder)
            (rw (bad, ladder) (ladder_error rest _ _ refl (ground (arith, answers q w))))
    ]
  ]

  ladder_missed :
      (order : List String) (w : World)
      → order ≢ []
      → first_up up paths order ≡ none
      → (w' : World) × (e : PathError) × (ladder env req paths order none w
          ≡ (w', exhausted (some e)))
  unfolding ladder
  ladder_missed [] w ne e = absurd (ne refl)
  ladder_missed (n ∷ rest) w ne e = elim (Option-cases (lookup n paths)) [
    | inl miss ↦ rw (miss, ladder) (ladder_error rest _ w refl (ground arith))
    | inr (q, hit) ↦ elim (Result-cases (try_path env req q w).1) [
      | inl (h, good) ↦ absurd (ground (arith, answers q w))
      | inr (x, bad) ↦
          rw (hit, ladder)
            (rw (bad, ladder) (ladder_error rest _ _ refl (ground (arith, answers q w))))
    ]
  ]

order_ne :
    (up : PathAdapter → Bool) (paths : Map PathAdapter) (order : List String)
    {r : String × PathAdapter}
    → first_up up paths order ≡ some r
    → order ≢ []
order_ne up paths [] e = absurd (cc e)
order_ne up paths (n ∷ rest) e = λ q. cc

-- `Ensure` on an enabled selector and a session that may probe, in an environment where each path is
-- up or down: if some registered path of the order is up, it returns the first such, and the session
-- has it selected, holds its handle and has no error.
pub ensure_takes_first_up :
    (up : PathAdapter → Bool) (env : Env) (sel : Selector) (s : Session) (req : OpenRequest)
    (w : World) (name : String) (p : PathAdapter)
    → AnswersBy up env req
    → sel.cfg.enabled ≡ true
    → can_probe s.state ≡ true
    → first_up up sel.paths sel.cfg.order ≡ some (name, p)
    → (s' : Session) × (w' : World) × (h : Handle) × (ensure_session env sel s req w
        ≡ (s', w', ok (p, h)))
      × (s'.state ≡ path_selected)
      × (s'.active_path ≡ name)
      × (s'.active ≡ some h)
      × (s'.last_error ≡ none)
ensure_takes_first_up up env sel s req w name p answers on can found =
    let (t, walks) =
      ensure_walks env sel s req w on can (order_ne up sel.paths sel.cfg.order found) in
    let (w', h, walk) =
      ladder_found up env req sel.paths answers sel.cfg.order none w name p found in
    let s' : Session = record s { state = probing; updated_at = t } in
    let close = close_replaced s.active h w' in
    (
      record s {
        state = path_selected;
        active_path = name;
        active = some h;
        last_error = none;
        updated_at = env.now close.calls;
      },
      note_path_selected close,
      h,
      rw (walks, walk) (conclude_landed env s' w' name p h refl),
      refl,
      refl,
      refl,
      refl,
    )

-- If no registered path of the order is up, `Ensure` returns the wrapped last error; the session is
-- failed, records that error, and keeps the handle and the path that it had.
ensure_fails_if_none_up :
    (up : PathAdapter → Bool) (env : Env) (sel : Selector) (s : Session) (req : OpenRequest)
    (w : World)
    → AnswersBy up env req
    → sel.cfg.enabled ≡ true
    → can_probe s.state ≡ true
    → sel.cfg.order ≢ []
    → first_up up sel.paths sel.cfg.order ≡ none
    → (s' : Session) × (w' : World) × (e : PathError) × (ensure_session env sel s req w
        ≡ (s', w', err (all_paths_failed e)))
      × (s'.state ≡ failed)
      × (s'.last_error ≡ some e)
      × (s'.active ≡ s.active)
      × (s'.active_path ≡ s.active_path)
ensure_fails_if_none_up up env sel s req w answers on can some_path missed =
    let (t, walks) = ensure_walks env sel s req w on can some_path in
    let (w', e, walk) =
      ladder_missed up env req sel.paths answers sel.cfg.order w some_path missed in
    let s' : Session = record s { state = probing; updated_at = t } in
    (
      record s { state = failed; last_error = some e; updated_at = env.now w'.calls },
      note_path_fail w',
      e,
      rw (walks, walk) (conclude_exhausted env s' w' (some e) refl),
      refl,
      refl,
      refl,
      refl,
    )
