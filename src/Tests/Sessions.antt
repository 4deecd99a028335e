-- ===== src/Tests/Sessions.antt =====
-- pkg/pathselect: a session that logs in, probes and selects a path, and configurations.
use cloudbridge_client.Prelude.{◌≡◌, ◌⊎◌, ◌↔◌, none}
use cloudbridge_client.PathSelect.Session.{probing, Session, or_idle, transition, new_session}
use cloudbridge_client.PathSelect.Session.Edges.{Diagram, Extra, transition-Edge}

abbrev fresh : Session
fresh = new_session 5 "session" "tenant" "here" "there"

transition-Edge_example : ((transition 7 probing fresh).1 ≡ none) ↔ (
    (or_idle fresh.state ≡ probing)
    ⊎ (Diagram (or_idle fresh.state) probing ⊎ Extra (or_idle fresh.state) probing))
transition-Edge_example = transition-Edge 7 probing fresh
