-- ===== src/Tests/Lives.antt =====
-- pkg/p2p/manager.go and pkg/quic/connection.go: managers that are started and stopped, and a stream.

use text.Mathlib.Text.{◌==◌ as str_eq}
use cloudbridge_client.Prelude.{ℕ, ◌≡◌, refl, true, false, none, some, [], ◌∷◌, err, if◌then◌else◌}
use cloudbridge_client.Prelude.StringMap.{lookup}
use cloudbridge_client.Quic.{
  Quic, Tls, stream_closed, conn_closed, create_stream, get_stream, close_stream, close,
  not_established, is_connected,
}
use cloudbridge_client.Quic.Streams.{Listed, close-create_stream, close_releases}
use cloudbridge_client.P2p.{P2pManager}
use cloudbridge_client.P2p.Life.{StartTry, stop}
use cloudbridge_client.Prelude.{err}
use cloudbridge_client.P2p.Life.Stopped.{NeverStarts, stopped-NeverStarts}
use cloudbridge_client.Tests.Auths.{lib, outside}
use cloudbridge_client.Tests.Managers.{relay, running, no_answer_when_done}
use cloudbridge_client.Tests.Settings.{parser}
use cloudbridge_client.Tests.Peerings.{services, manager, attempt, login, disk}

abbrev pub try_start : StartTry
try_start = record {
  now = 5;
  parses = λ s. true;
  created = true;
  gathering = attempt.gathering;
  bound = true;
  login = login;
  ufrag = "u";
  pwd = "p";
}

abbrev smoke : P2pManager ℕ
smoke = record manager { skip_data_plane = true }

abbrev live : P2pManager ℕ
live = record manager { api = some running }

stopped-NeverStarts_example :
    NeverStarts lib outside relay parser services
      (try_start ∷ try_start ∷ [])
      (stop lib outside relay true live).1
      disk
stopped-NeverStarts_example =
    stopped-NeverStarts lib outside relay parser services (try_start ∷ try_start ∷ []) disk true
      live running no_answer_when_done refl refl

abbrev login_tls : Tls
login_tls = record {
  server_name = "relay";
  insecure_skip_verify = false;
  next_protos = [];
  certificates = 0;
}

-- A connection with one stream.
abbrev open_quic : Quic
open_quic = record {
  conn = some 1;
  streams = ("old", 7) ∷ [];
  tls_client = login_tls;
  tls_server = login_tls;
  has_handler = false;
  cancelled = false;
  monitors = 1;
  listeners = 0;
  log = [];
}

close-create_stream_example :
    (get_stream "id" (create_stream "id" (some 9) open_quic).1 ≡ some 9)
    × (get_stream "old" (close_stream "id" (create_stream "id" (some 9) open_quic).1).1
        ≡ (if str_eq "id" "old" then none else get_stream "old" open_quic))
    × ((close_stream "id" (create_stream "id" (some 9) open_quic).1).1.log ≡ stream_closed 9 ∷ [])
unfolding is_connected
close-create_stream_example = close-create_stream "id" "old" 9 open_quic refl

close_releases_example :
    Listed (conn_closed 1) (close open_quic).log
    × Listed (stream_closed 7) (close open_quic).log
    × (get_stream "old" (close open_quic) ≡ none)
    × ((create_stream "old" (some 9) (close open_quic)).0 ≡ err not_established)
    × (close (close open_quic) ≡ close open_quic)
unfolding get_stream lookup
close_releases_example = close_releases "old" 7 1 (some 9) open_quic refl refl
