-- ===== src/Quic.antt =====
-- pkg/quic/connection.go: the QUIC connection and its table of streams. Connections and streams are the
-- numbers that quic-go's answers give; every close that is asked for is kept in a log.
use Prim.Native.String
use Prim.Native.String.{String}
use text.Mathlib.Text.{◌==◌ as str_eq}
use cloudbridge_client.Prelude.{
  ℕ, ◌+◌, ◌==◌, Bool, true, false, ◌&&◌, not, Option, none, some, is_some, List, [], ◌∷◌, Result,
  ok, err, if◌then◌else◌,
}
use cloudbridge_client.Prelude.StringMap.{Map, lookup, insert, delete}
pub mod Streams

-- `tls.Config`, the fields that are set or read.
pub record Tls : Type 0 where
  pub server_name : String
  pub insecure_skip_verify : Bool
  pub next_protos : List String
  pub certificates : ℕ

pub data Close : Type 0 where
  stream_closed conn_closed : ℕ → Close

pub data Error : Type 0 where
  no_server_name not_dialled no_certificates not_bound not_established no_stream : Error
  stream_not_found : String → Error

-- `QUICConnection`. `monitors` and `listeners` count the goroutines started for connections and
-- listeners.
pub record Quic : Type 0 where
  pub conn : Option ℕ
  pub streams : Map ℕ
  pub tls_client : Tls
  pub tls_server : Tls
  pub has_handler : Bool
  pub cancelled : Bool
  pub monitors : ℕ
  pub listeners : ℕ
  pub log : List Close

abbrev default_tls : Tls
default_tls = record {
  server_name = "";
  insecure_skip_verify = false;
  next_protos = "cloudbridge-p2p" ∷ "h3" ∷ [];
  certificates = 0;
}

-- `NewQUICConnection`.
unfoldable pub new_quic_connection : Quic
new_quic_connection = record {
  conn = none;
  streams = [];
  tls_client = default_tls;
  tls_server = default_tls;
  has_handler = false;
  cancelled = false;
  monitors = 0;
  listeners = 0;
  log = [];
}

-- The setters.
unfoldable pub set_client_tls_config : Tls → Quic → Quic
set_client_tls_config cfg q = record q { tls_client = cfg }

unfoldable pub set_server_tls_config : Tls → Quic → Quic
set_server_tls_config cfg q = record q { tls_server = cfg }

unfoldable pub set_server_tls_cert : Quic → Quic
set_server_tls_cert q = record q { tls_server = record (q.tls_server) { certificates = 1 } }

unfoldable pub set_client_server_name : String → Quic → Quic
set_client_server_name name q = record q {
  tls_client = record (q.tls_client) { server_name = name };
}

unfoldable pub set_insecure_skip_verify : Bool → Quic → Quic
set_insecure_skip_verify insecure q = record q {
  tls_client = record (q.tls_client) { insecure_skip_verify = insecure };
}

unfoldable pub set_alpn : List String → Quic → Quic
set_alpn protocols q = record q {
  tls_client = record (q.tls_client) { next_protos = protocols };
  tls_server = record (q.tls_server) { next_protos = protocols };
}

unfoldable pub set_stream_handler : Quic → Quic
set_stream_handler q = record q { has_handler = true }

-- `Connect`, with the connection that dialling gives.
unfoldable pub connect : Option ℕ → Quic → Option Error × Quic
connect dialled q =
    if str_eq q.tls_client.server_name "" && not q.tls_client.insecure_skip_verify
    then (some no_server_name, q)
    else elim dialled [
      | none ↦ (some not_dialled, q)
      | some c ↦ (none, record q { conn = some c; monitors = q.monitors + 1 })
    ]

-- `Listen`.
unfoldable pub listen : Bool → Quic → Option Error × Quic
listen bound q =
    if q.tls_server.certificates == 0
    then (some no_certificates, q)
    else if bound
    then (none, record q { listeners = q.listeners + 1 })
    else (some not_bound, q)

-- `CreateStream` and `AcceptStream`, with the stream that quic-go gives; the id of an accepted one is
-- made from its number, printed by `show`.
unfoldable pub keep_stream : String → Option ℕ → Quic → Result Error ℕ × Quic
keep_stream id opened q =
    if is_some q.conn
    then elim opened [
      | none ↦ (err no_stream, q)
      | some s ↦ (ok s, record q { streams = insert id s q.streams })
    ]
    else (err not_established, q)

abbrev pub create_stream : String → Option ℕ → Quic → Result Error ℕ × Quic
create_stream = keep_stream

abbrev stream_id : (ℕ → String) → Option ℕ → String
stream_id show none = ""
stream_id show (some s) = String.◌++◌ "stream_" (show s)

unfoldable pub accept_stream : (ℕ → String) → Option ℕ → Quic → Result Error ℕ × Quic
accept_stream show accepted q = keep_stream (stream_id show accepted) accepted q

-- `GetStream`.
unfoldable pub get_stream : String → Quic → Option ℕ
get_stream id q = lookup id q.streams

-- `CloseStream`; an error of the close is only logged.
unfoldable pub close_stream : String → Quic → Option Error × Quic
close_stream id q = elim (lookup id q.streams) [
  | none ↦ (some (stream_not_found id), q)
  | some s ↦ (none, record q { streams = delete id q.streams; log = stream_closed s ∷ q.log })
]

-- The loop of `Close`.
unfoldable pub close_all : Map ℕ → List Close → List Close
close_all [] log = log
close_all ((id, s) ∷ streams) log = close_all streams (stream_closed s ∷ log)

-- `Close`.
unfoldable pub close : Quic → Quic
close q = elim q.conn [
  | none ↦ q
  | some c ↦ record q {
    conn = none;
    streams = [];
    cancelled = true;
    log = conn_closed c ∷ close_all q.streams q.log;
  }
]

unfoldable pub is_connected : Quic → Bool
is_connected q = is_some q.conn

-- `handleIncomingConnection` at one stream, and the end of its `handleStream`: with a handler the
-- stream is left to the handler, without one it is closed.
unfoldable pub incoming_stream : (ℕ → String) → ℕ → Quic → Quic
incoming_stream show s q = record q {
  streams = insert (String.◌++◌ "incoming_" (show s)) s q.streams;
}

unfoldable pub handled_stream : (ℕ → String) → Bool → ℕ → Quic → Quic
handled_stream show by_handler s q =
    let q' = record q { streams = delete (String.◌++◌ "incoming_" (show s)) q.streams } in
    if by_handler then q' else record q' { log = stream_closed s ∷ q.log }
