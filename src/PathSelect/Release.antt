-- ===== src/PathSelect/Release.antt =====
-- pkg/pathselect/session.go: `ClearActive`, which closes and drops the handle of a session.
use cloudbridge_client.Prelude.{◌≡◌, arith, Option, none, some, [], Option-cases, inl, inr}
use cloudbridge_client.PathSelect.Session.{Session}
use cloudbridge_client.PathSelect.Ladder.{World}
use cloudbridge_client.PathSelect.Ladder.Handles.{NoLeak, open_handles, release}
use cloudbridge_client.PathSelect.Health.{close_active}

-- `ClearActive`; a nil session is left alone.
unfoldable pub clear_active : Option Session → World → Option Session × World
clear_active none w = (none, w)
clear_active (some s) w =
    (some (record s { active = none; active_path = "" }), close_active s.active w)

-- If the handle that the session holds is the only one open, then none is open after `ClearActive`.
clear_active_closes :
    (s : Session) (w : World) → NoLeak s w → open_handles (clear_active (some s) w).1.calls ≡ []
unfolding clear_active close_active release
clear_active_closes s w h = elim (Option-cases s.active) [
  | inl nothing ↦ ground arith
  | inr (a, held') ↦ ground arith
]
