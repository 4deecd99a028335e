-- ===== src/P2p/Life/Stopped.antt =====
-- pkg/p2p/manager.go over pkg/api/manager.go: what is left after `Stop`.
use cloudbridge_client.Prelude.{◌≡◌, ◌≢◌, arith, Bool, true, false, List, [], ◌∷◌, none, some}
use cloudbridge_client.Auth.{JwtLib}
use cloudbridge_client.Auth.Keys.{Outside}
use cloudbridge_client.Api.Manager.{Relay, Manager}
use cloudbridge_client.Api.Manager.Lifecycle
use cloudbridge_client.Api.Manager.Lifecycle.{DoneFails, stopped_stays}
use cloudbridge_client.Api.WireGuard.{Disk}
use cloudbridge_client.P2p.Settings.{Parser}
use cloudbridge_client.P2p.{P2pManager, Services}
use cloudbridge_client.P2p.Life.{StartTry, start_api, start, stop}

module _ (jwt : JwtLib) (out : Outside jwt.Pub) (r : Relay) where
  -- The API manager is stopped.
  abbrev pub IsOver : P2pManager jwt.Pub → Type 0
  IsOver m = (a : Manager jwt.Pub) × (m.api ≡ some a) × (a.cancelled ≡ true) × (a.running ≡ false)

  start-IsOver :
      (p : Parser) (s : Services) (w : StartTry) (d : Disk) (m : P2pManager jwt.Pub)
      → DoneFails jwt out r
      → IsOver m
      → ((start jwt out r p s w m d).0 ≢ none) × IsOver (start jwt out r p s w m d).1
  unfolding start start_api
  start-IsOver p s w d m fails (a, there, over, idle) =
      let (e, refused, over', idle') = stopped_stays jwt out r w.now a fails over idle in
      (λ h. ground arith, ((Lifecycle.start jwt out r w.now a).1, ground arith, over', idle'))

  stop-IsOver :
      (ice_closes : Bool) (m : P2pManager jwt.Pub) (a : Manager jwt.Pub)
      → m.api ≡ some a
      → a.running ≡ true
      → IsOver (stop jwt out r ice_closes m).1
  unfolding stop Lifecycle.stop
  stop-IsOver ice_closes m a there runs =
      (Lifecycle.stop jwt out r a, ground arith, ground arith, ground arith)

  -- Each of some starts after each other fails.
  abbrev pub NeverStarts : Parser → Services → List StartTry → P2pManager jwt.Pub → Disk → Type 0
  NeverStarts p s [] m d = Unit
  NeverStarts p s (w ∷ ws) m d =
      ((start jwt out r p s w m d).0 ≢ none)
      × NeverStarts p s ws (start jwt out r p s w m d).1 (start jwt out r p s w m d).2

  never_starts :
      (p : Parser) (s : Services) (ws : List StartTry) (m : P2pManager jwt.Pub) (d : Disk)
      → DoneFails jwt out r
      → IsOver m
      → NeverStarts p s ws m d
  never_starts p s [] m d fails over = tt
  never_starts p s (w ∷ ws) m d fails over =
      let (failed, over') = start-IsOver p s w d m fails over in
      (
        failed,
        never_starts p s ws (start jwt out r p s w m d).1 (start jwt out r p s w m d).2 fails over',
      )

  -- If the relay answers no registration once the context is done, then after the stop of a manager whose
  -- API manager was running every `Start` fails, however many follow each other.
  pub stopped-NeverStarts :
      (p : Parser) (s : Services) (ws : List StartTry) (d : Disk) (ice_closes : Bool)
      (m : P2pManager jwt.Pub) (a : Manager jwt.Pub)
      → DoneFails jwt out r
      → m.api ≡ some a
      → a.running ≡ true
      → NeverStarts p s ws (stop jwt out r ice_closes m).1 d
  stopped-NeverStarts p s ws d ice_closes m a fails there runs =
      never_starts p s ws (stop jwt out r ice_closes m).1 d fails
        (stop-IsOver ice_closes m a there runs)
