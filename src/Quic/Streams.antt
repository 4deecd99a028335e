-- ===== src/Quic/Streams.antt =====
-- pkg/quic/connection.go: what becomes of streams and connections.
use Prim.Native.String.{String}
use text.Mathlib.Text.{◌==◌ as str_eq}
use cloudbridge_client.Prelude.{
  ℕ, ◌≡◌, refl, arith, ◌⊎◌, inl, inr, true, Option, none, some, List, [], ◌∷◌, ok, err,
  if◌then◌else◌, Bool-cases,
}
use cloudbridge_client.Prelude.StringMap.{
  Map, lookup, insert, delete, lookup-insert, lookup-insert_self, lookup-delete,
}
use cloudbridge_client.Quic.{
  Quic, Close, not_established, stream_closed, conn_closed, keep_stream, create_stream, get_stream,
  close_stream, close_all, close, is_connected,
}

kept :
    (id : String) (s : ℕ) (q : Quic)
    → is_connected q ≡ true
    → create_stream id (some s) q ≡ (ok s, record q { streams = insert id s q.streams })
unfolding is_connected keep_stream
kept id s q up = rw up refl

closed :
    (id : String) (s : ℕ) (q : Quic)
    → lookup id q.streams ≡ some s
    → close_stream id q
      ≡ (none, record q { streams = delete id q.streams; log = stream_closed s ∷ q.log })
unfolding close_stream
closed id s q found = rw (found, close_stream) refl

-- A stream that was created is found under its id; once it is closed it is the last that was closed and
-- is found no more, and the others are found as before both calls.
pub close-create_stream :
    (id other : String) (s : ℕ) (q : Quic)
    → is_connected q ≡ true
    → (get_stream id (create_stream id (some s) q).1 ≡ some s)
      × (get_stream other (close_stream id (create_stream id (some s) q).1).1
          ≡ (if str_eq id other then none else get_stream other q))
      × ((close_stream id (create_stream id (some s) q).1).1.log ≡ stream_closed s ∷ q.log)
unfolding get_stream
close-create_stream id other s q up =
    let q' : Quic = record q { streams = insert id s q.streams } in
    let others : lookup other (delete id (insert id s q.streams))
        ≡ (if str_eq id other then none else lookup other q.streams) =
      rw (lookup-delete, lookup-insert) (ground arith) in
    rw (kept id s q up, closed id s q' (lookup-insert_self id s q.streams))
      (lookup-insert_self id s q.streams, others, refl)

unfoldable pub Listed : Close → List Close → Type 0
Listed x [] = ⊥
Listed x (y ∷ ys) = (x ≡ y) ⊎ Listed x ys

close_all_keeps :
    (x : Close) (streams : Map ℕ) (log : List Close)
    → Listed x log
    → Listed x (close_all streams log)
unfolding close_all Listed
close_all_keeps x [] log h = h
close_all_keeps x ((id, s) ∷ streams) log h =
    close_all_keeps x streams (stream_closed s ∷ log) (inr h)

all_closed :
    (id : String) (s : ℕ) (streams : Map ℕ) (log : List Close)
    → lookup id streams ≡ some s
    → Listed (stream_closed s) (close_all streams log)
unfolding close_all lookup Listed
all_closed id s [] log h = absurd (ground arith)
all_closed id s ((n, x) ∷ streams) log h = elim (Bool-cases (str_eq n id)) [
  | inl e ↦ close_all_keeps (stream_closed s) streams (stream_closed x ∷ log) (inl (ground arith))
  | inr e ↦ all_closed id s streams (stream_closed x ∷ log) (ground arith)
]

-- `Close` of a connection closes it and every stream that could be found, and afterwards none is found,
-- none can be created, and a second `Close` does nothing.
pub close_releases :
    (id : String) (s c : ℕ) (opened : Option ℕ) (q : Quic)
    → q.conn ≡ some c
    → get_stream id q ≡ some s
    → Listed (conn_closed c) (close q).log
      × Listed (stream_closed s) (close q).log
      × (get_stream id (close q) ≡ none)
      × ((create_stream id opened (close q)).0 ≡ err not_established)
      × (close (close q) ≡ close q)
unfolding close get_stream keep_stream lookup Listed
close_releases id s c opened q up found =
    rw up (inl refl, inr (all_closed id s q.streams q.log found), refl, refl, refl)
