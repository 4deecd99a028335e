-- ===== src/Tests/Tunnels.antt =====
-- pkg/tunnel: a registry with one tunnel, the pool, the statistics and the copy loop.

use cloudbridge_client.Prelude.{◌≡◌, refl, ◌≤◌, arith, Bool, true, List, [], ◌∷◌, All, length}
use cloudbridge_client.Prelude.Int.{ℤ, pos}
use cloudbridge_client.Tunnel.Registry.{new_manager}
use cloudbridge_client.Tunnel.Registry.Invariant.{
  Op, register, unregister, run_calls, IsValid, run_calls-IsValid,
}
use cloudbridge_client.Tunnel.Buffers
use cloudbridge_client.Tunnel.Buffers.{
  new_buffer_manager, make_bytes, take_one, give_back, buffers_carry_no_data,
}
use cloudbridge_client.Prelude.{◌++◌, false, true}
use cloudbridge_client.Prelude.Int.{wrap64}
use cloudbridge_client.Tunnel.Stats
use cloudbridge_client.Tunnel.Stats.{
  Event, opened, closed, copied, new_tunnel_stats, get_stats, stats_exact,
}
use cloudbridge_client.Tunnel.Copy.{
  read_chunk, copy_loop, fine, nothing_copied, sum, copy_loop-delivers,
}

abbrev bindable : ℤ → Bool
bindable port = true

abbrev calls : List Op
calls =
    register bindable 1 "web" (pos 8080) "10.0.0.9" (pos 80) ""
    ∷ register bindable 2 "db" (pos 8080) "10.0.0.9" (pos 5432) ""
    ∷ register bindable 3 "db" (pos 5433) "10.0.0.9" (pos 5432) "127.0.0.1:9000"
    ∷ unregister "web"
    ∷ []

run_calls-IsValid_example : IsValid (run_calls calls new_manager)
run_calls-IsValid_example = run_calls-IsValid calls

abbrev uses : List Buffers.Op
uses = take_one ∷ give_back (7 ∷ 8 ∷ []) ∷ take_one ∷ take_one ∷ give_back (9 ∷ 9 ∷ []) ∷ []

buffers_carry_no_data_example :
    let (bufs, bm) = Buffers.run uses (new_buffer_manager 2 1) in
    All (λ buf. buf ≡ make_bytes 2) bufs × (length bm.pool ≤ bm.max_buffers)
buffers_carry_no_data_example = buffers_carry_no_data 2 1 uses (refl, (refl, tt))

abbrev events : List Event
events = opened 1 ∷ copied 2 100 ∷ opened 3 ∷ closed 4 ∷ copied 5 20 ∷ []

stats_exact_example :
    let ts = get_stats (Stats.run events (new_tunnel_stats 0)) in
    (ts.active_connections ≡ pos 1)
    × (ts.connections_handled ≡ wrap64 2)
    × (ts.bytes_transferred ≡ wrap64 120)
stats_exact_example = stats_exact 0 events (omega arith) (omega arith)

copy_loop-delivers_example :
    let c =
      copy_loop
        (fine ((1 ∷ 2 ∷ []) ∷ [] ∷ []) ++ read_chunk (3 ∷ 4 ∷ []) 1 false ∷ [])
        nothing_copied in
    (c.delivered ≡ 1 ∷ 2 ∷ 3 ∷ []) × (sum c.counted ≡ 2) × (c.finished ≡ true)
copy_loop-delivers_example =
    copy_loop-delivers ((1 ∷ 2 ∷ []) ∷ [] ∷ []) (read_chunk (3 ∷ 4 ∷ []) 1 false) [] tt
