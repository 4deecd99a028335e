-- ===== src/Ice/States.antt =====
-- pkg/ice/agent.go: the state of a connection, as the agent reports it.
use cloudbridge_client.Prelude.{◌≢◌, arith}
use cloudbridge_client.Ice.{Agent, connected, get_connection_state}

-- No agent ever reports that it is connected.
pub never_connected : (a : Agent) → get_connection_state a ≢ connected
unfolding get_connection_state
never_connected a h = ground arith
