-- ===== src/Configuration/Watcher/Reload.antt =====
-- pkg/config/watcher.go: what a reload changes and whom it tells, and the debouncing of events.

use Prim.Native.String.{String}
use cloudbridge_client.Prelude.{◌+◌, ◌<◌, ◌≡◌, refl, arith, leb, false, none, some, List, [], ◌∷◌}
use cloudbridge_client.Prelude.Time.{Time}
use cloudbridge_client.Configuration.{Config}
use cloudbridge_client.Configuration.Watcher.{
  Outside, ConfigWatcher, handle_file_event, due, events,
}

module _ {Rest : Type 0} (o : Outside Rest) where
  -- The seven fields that the watcher compares.
  abbrev pub Agree : Config Rest → Config Rest → Type 0
  Agree a b =
      (a.logging_level ≡ b.logging_level)
      × (a.relay.tls.verify_cert ≡ b.relay.tls.verify_cert)
      × (a.relay.tls.enabled ≡ b.relay.tls.enabled)
      × (a.relay.host ≡ b.relay.host)
      × (a.relay.port ≡ b.relay.port)
      × (a.auth.secret ≡ b.auth.secret)
      × (a.api_base_url ≡ b.api_base_url)

  -- Events that follow each other within the delay.
  abbrev pub Burst : Time → List Time → Type 0
  Burst t [] = Unit
  Burst t (u ∷ us) = (u < t + 500000000) × Burst u us

  abbrev pub last : Time → List Time → Time
  last t [] = t
  last t (u ∷ us) = last u us

  debounce_from :
      (t : Time) (us : List Time) (w : ConfigWatcher o)
      → Burst t us
      → events o us (record w { debounce_timer = some (t + 500000000) })
        ≡ record w { debounce_timer = some (last t us + 500000000) }
  unfolding events handle_file_event due
  debounce_from t [] w burst = refl
  debounce_from t (u ∷ us) w (soon, burst) =
      let early : leb (t + 500000000) u ≡ false = ground arith in
      rw early (debounce_from u us w burst)

  -- After a burst of events on a watcher whose timer does not run, nothing has been loaded yet, and the
  -- timer stands at the delay after the last event: the burst costs one reload.
  pub debounce_reloads_once :
      (t : Time) (us : List Time) (w : ConfigWatcher o)
      → w.debounce_timer ≡ none
      → Burst t us
      → events o (t ∷ us) w ≡ record w { debounce_timer = some (last t us + 500000000) }
  unfolding events handle_file_event due
  debounce_reloads_once t us w idle burst = rw idle (debounce_from t us w burst)
