-- ===== src/Api/Manager/Channels.antt =====
-- pkg/api/manager.go: the stop channels of `Start` and `Stop`. Closing a closed channel panics.
use cloudbridge_client.Prelude.{
  ℕ, ◌+◌, ◌<◌, ◌≡◌, ◌≢◌, arith, ◌⊎◌, inl, inr, true, false, Option, none, some, List, [], ◌∷◌, ok,
  Bool-cases, Result-cases,
}
use cloudbridge_client.Prelude.Time.{Time}
use cloudbridge_client.Auth.{JwtLib}
use cloudbridge_client.Auth.Keys.{Outside}
use cloudbridge_client.Api.Manager.{Manager, Relay, register_peer}
use cloudbridge_client.Api.Manager.Lifecycle.{
  closing, SameLife-register_peer, start_loops, start_checked, close_session, stop,
}

-- No number below the one given occurs in the list, the list has no duplicate, and all of it is below
-- the bound.
abbrev pub Absent : ℕ → List ℕ → Type 0
Absent c [] = Unit
Absent c (d ∷ ds) = (c ≢ d) × Absent c ds

abbrev pub Once : List ℕ → Type 0
Once [] = Unit
Once (c ∷ cs) = Absent c cs × Once cs

abbrev pub Below : ℕ → List ℕ → Type 0
Below n [] = Unit
Below n (c ∷ cs) = (c < n) × Below n cs

-- The current stop channel was made and is not closed.
abbrev pub Open : Option ℕ → List ℕ → ℕ → Type 0
Open none closed n = Unit
Open (some c) closed n = Absent c closed × (c < n)

Below-Absent : (n : ℕ) (cs : List ℕ) → Below n cs → Absent n cs
Below-Absent n [] h = tt
Below-Absent n (c ∷ cs) (lt, h) = (λ e. absurd (omega arith), Below-Absent n cs h)

Below_more : (n : ℕ) (cs : List ℕ) → Below n cs → Below (n + 1) cs
Below_more n [] h = tt
Below_more n (c ∷ cs) (lt, h) = (omega arith, Below_more n cs h)

-- Every channel was closed at most once, and the current one is open.
pub record IsSound {Pub : Type 0} (m : Manager Pub) : Type 0 where
  pub once : Once m.closed
  pub made : Below m.channels m.closed
  pub current : Open m.hb_stop m.closed m.channels

closing-Once : (h : Option ℕ) (cs : List ℕ) (n : ℕ) → Once cs → Open h cs n → Once (closing h cs)
closing-Once none cs n once o = once
closing-Once (some c) cs n once (absent, lt) = (absent, once)

closing-Below :
    (h : Option ℕ) (cs : List ℕ) (n : ℕ) → Below n cs → Open h cs n → Below n (closing h cs)
closing-Below none cs n below o = below
closing-Below (some c) cs n below (absent, lt) = (lt, below)

module _ (jwt : JwtLib) (out : Outside jwt.Pub) (r : Relay) where
  -- The invariant speaks of three fields only.
  IsSound-same :
      (m m' : Manager jwt.Pub)
      → m'.hb_stop ≡ m.hb_stop
      → m'.closed ≡ m.closed
      → m'.channels ≡ m.channels
      → IsSound m
      → IsSound m'
  IsSound-same m m' h cl ch s = record {
    once = rw cl s.once;
    made = rw (cl, ch) s.made;
    current = rw (h, cl, ch) s.current;
  }

  IsSound-start_loops :
      (now : Time) (m : Manager jwt.Pub) → IsSound m → IsSound (start_loops jwt out r now m)
  unfolding start_loops
  IsSound-start_loops now m s =
      let below = closing-Below m.hb_stop m.closed m.channels s.made s.current in
      record {
        once = closing-Once m.hb_stop m.closed m.channels s.once s.current;
        made = Below_more m.channels (closing m.hb_stop m.closed) below;
        current = (Below-Absent m.channels (closing m.hb_stop m.closed) below, omega arith);
      }

  IsSound-start_checked :
      (now : Time) (m : Manager jwt.Pub) → IsSound m → IsSound (start_checked jwt out r now m).1
  unfolding start_checked
  IsSound-start_checked now m s =
      let (run, c, h, cl, ch, loops) = SameLife-register_peer jwt out r now m in
      let after = IsSound-same m (register_peer jwt out r now m).1 h cl ch s in
      elim (Result-cases (register_peer jwt out r now m).0) [
        | inl (u, e) ↦
            rw (e, start_checked) (IsSound-start_loops now (register_peer jwt out r now m).1 after)
        | inr (x, e) ↦ rw (e, start_checked) after
      ]

  without_session :
      (m : Manager jwt.Pub)
      → (close_session jwt out r m ≡ m)
        ⊎ (((close_session jwt out r m).hb_stop ≡ none)
            × ((close_session jwt out r m).closed ≡ closing m.hb_stop m.closed)
            × ((close_session jwt out r m).channels ≡ m.channels))
  unfolding close_session
  without_session m = ground arith

  IsSound-close_session : (m : Manager jwt.Pub) → IsSound m → IsSound (close_session jwt out r m)
  IsSound-close_session m s = elim (without_session m) [
    | inl same ↦ rw same s
    | inr (h, cl, ch) ↦ record {
      once = rw cl (closing-Once m.hb_stop m.closed m.channels s.once s.current);
      made = rw (cl, ch) (closing-Below m.hb_stop m.closed m.channels s.made s.current);
      current = rw h tt;
    }
  ]

  IsSound-stop : (m : Manager jwt.Pub) → IsSound m → IsSound (stop jwt out r m)
  unfolding stop
  IsSound-stop m s = elim (Bool-cases m.running) [
    | inl runs ↦
        let s' = IsSound-close_session m s in
        let e : stop jwt out r m
            ≡ record (close_session jwt out r m) { cancelled = true; running = false } =
          ground arith in
        rw e (record { once = s'.once; made = s'.made; current = s'.current })
    | inr idle ↦ let e : stop jwt out r m ≡ m = ground arith in rw e s
  ]

  -- What callers do with a manager: the half of `Start` that follows its check, on whatever state other
  -- callers have left meanwhile, and `Stop`.
  pub data Act : Type 0 where
    started : Time → Act
    stopped : Act

  abbrev pub act : Act → Manager jwt.Pub → Manager jwt.Pub
  act (started now) m = (start_checked jwt out r now m).1
  act stopped m = stop jwt out r m

  abbrev pub acts : List Act → Manager jwt.Pub → Manager jwt.Pub
  acts [] m = m
  acts (a ∷ more) m = acts more (act a m)

  -- No order of starts and stops, not even of starts whose checks overlap, closes a stop channel twice,
  -- and the channel that the manager holds is always an open one.
  pub acts-IsSound : (todo : List Act) (m : Manager jwt.Pub) → IsSound m → IsSound (acts todo m)
  acts-IsSound [] m s = s
  acts-IsSound (started now ∷ more) m s =
      acts-IsSound more (start_checked jwt out r now m).1 (IsSound-start_checked now m s)
  acts-IsSound (stopped ∷ more) m s = acts-IsSound more (stop jwt out r m) (IsSound-stop m s)

  loops-start_checked :
      (now : Time) (m : Manager jwt.Pub)
      → (register_peer jwt out r now m).0 ≡ ok tt
      → (start_checked jwt out r now m).1.loops ≡ m.loops + 1
  unfolding start_checked start_loops
  loops-start_checked now m good =
      let (run, c, h, cl, ch, loops) = SameLife-register_peer jwt out r now m in ground arith

  -- Two starts whose checks both came before either end run two heartbeat loops.
  two_starts_two_loops :
      (t u : Time) (m : Manager jwt.Pub)
      → (register_peer jwt out r t m).0 ≡ ok tt
      → (register_peer jwt out r u (start_checked jwt out r t m).1).0 ≡ ok tt
      → (acts (started t ∷ started u ∷ []) m).loops ≡ m.loops + 2
  two_starts_two_loops t u m first second =
      let once = loops-start_checked t m first in
      let twice = loops-start_checked u (start_checked jwt out r t m).1 second in omega arith
