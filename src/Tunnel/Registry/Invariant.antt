-- ===== src/Tunnel/Registry/Invariant.antt =====
-- What holds of the registry between two calls: every tunnel is active, stands under its own ID and
-- has ports in range, and no two share an ID or a local port.
use Prim.Native.String.{String}
use text.Mathlib.Text.{◌==◌ as str_eq}
use cloudbridge_client.Prelude.{
  ◌≡◌, refl, arith, Bool, true, false, none, List, [], ◌∷◌, All, Bool-cases, inl, inr, Option-cases,
}
use cloudbridge_client.Prelude.Int.{ℤ, eqb_ℤ}
use cloudbridge_client.Prelude.Time.{Time}
use cloudbridge_client.Prelude.StringMap.{lookup, insert, delete}
use cloudbridge_client.Tunnel.Registry.Branches.{made, accepts, accepted_only, register_refused}
use cloudbridge_client.Tunnel.Registry.{
  Tunnel, Manager, new_manager, taken, bad_port, register_tunnel_with_endpoint, unregister_tunnel,
  active_count, get_tunnel_stats,
}

-- One entry of the map.
pub record IsGood (e : String × Tunnel) : Type 0 where
  pub named : e.1.id ≡ e.0
  pub live : e.1.active ≡ true
  pub local_ok : bad_port e.1.local_port ≡ false
  pub remote_ok : bad_port e.1.remote_port ≡ false
  pub hosted : str_eq e.1.remote_host "" ≡ false

-- An entry differs from another in its ID and its local port.
pub record Apart (e f : String × Tunnel) : Type 0 where
  pub ids : str_eq e.0 f.0 ≡ false
  pub ports : eqb_ℤ e.1.local_port f.1.local_port ≡ false

abbrev pub IsValid : Manager → Type 0
IsValid [] = Unit
IsValid (e ∷ m) = IsGood e × All (Apart e) m × IsValid m

module _ (n : String × Tunnel) where
  insert-All :
      (e : String × Tunnel) (m : Manager)
      → All (Apart e) m
      → Apart e n
      → All (Apart e) (insert n.0 n.1 m)
  unfolding insert
  insert-All e [] h a = (a, tt)
  insert-All e ((k, t) ∷ m) h a = elim (Bool-cases (str_eq k n.0)) [
    | inl same ↦ rw (same, insert) (a, h.1)
    | inr other ↦ rw (other, insert) (h.0, insert-All e m h.1 a)
  ]

  -- A new ID and a port that no active tunnel has.
  insert-IsValid :
      (m : Manager)
      → IsValid m
      → IsGood n
      → lookup n.0 m ≡ none
      → taken n.1.local_port m ≡ false
      → IsValid (insert n.0 n.1 m)
  unfolding insert lookup taken
  insert-IsValid [] v g l t = (g, tt, tt)
  insert-IsValid ((k, x) ∷ m) v g l t = elim (Bool-cases (str_eq k n.0)) [
    | inl same ↦ absurd (ground arith)
    | inr other ↦
        rw (other, insert)
          (
            v.0,
            insert-All (k, x) m v.1 (record { ids = other; ports = ground (arith, v.0.live) }),
            insert-IsValid m v.2 g (ground arith) (ground arith),
          )
  ]

delete-All :
    (id : String) (e : String × Tunnel) (m : Manager)
    → All (Apart e) m
    → All (Apart e) (delete id m)
unfolding delete
delete-All id e [] h = tt
delete-All id e ((k, t) ∷ m) h = elim (Bool-cases (str_eq k id)) [
  | inl same ↦ rw (same, delete) (delete-All id e m h.1)
  | inr other ↦ rw (other, delete) (h.0, delete-All id e m h.1)
]

delete-IsValid : (id : String) (m : Manager) → IsValid m → IsValid (delete id m)
unfolding delete
delete-IsValid id [] v = tt
delete-IsValid id ((k, t) ∷ m) v = elim (Bool-cases (str_eq k id)) [
  | inl same ↦ rw (same, delete) (delete-IsValid id m v.2)
  | inr other ↦ rw (other, delete) (v.0, delete-All id (k, t) m v.1, delete-IsValid id m v.2)
]

-- A registration, accepted or refused, keeps the registry valid, whatever ports the system lets be
-- bound at that moment.
register-IsValid :
    (bindable : ℤ → Bool) (now : Time) (id : String) (lp : ℤ) (host : String) (rp : ℤ)
    (endpoint : String) (m : Manager)
    → IsValid m
    → IsValid (register_tunnel_with_endpoint bindable now id lp host rp endpoint m).0
register-IsValid bindable now id lp host rp endpoint m v =
    elim (Option-cases (register_tunnel_with_endpoint bindable now id lp host rp endpoint m).1) [
      | inl ok' ↦
          let a = accepted_only bindable now id lp host rp endpoint m ok' in
          rw (accepts bindable now id lp host rp endpoint m a) (
            insert-IsValid (id, made now id lp host rp endpoint) m v
              (record {
                named = refl;
                live = refl;
                local_ok = a.local_ok;
                remote_ok = a.remote_ok;
                hosted = a.hosted;
              })
              a.fresh a.free)
      | inr (e, bad) ↦ rw (register_refused bindable now id lp host rp endpoint m bad) v
    ]

-- So does the removal of a tunnel, known or not.
unregister-IsValid : (id : String) (m : Manager) → IsValid m → IsValid (unregister_tunnel id m).0
unfolding unregister_tunnel
unregister-IsValid id m v = elim (Option-cases (lookup id m)) [
  | inl miss ↦ rw (miss, unregister_tunnel) v
  | inr (t, hit) ↦ rw (hit, unregister_tunnel) (delete-IsValid id m v)
]

-- In a valid registry the two counts of `GetTunnelStats` agree: no inactive tunnel stays behind.
stats_agree : (m : Manager) → IsValid m → (get_tunnel_stats m).1 ≡ (get_tunnel_stats m).0
unfolding get_tunnel_stats active_count
stats_agree [] v = refl
stats_agree ((k, t) ∷ m) v = ground (arith, v.0.live, stats_agree m v.2)

-- The calls that change the registry, with what the system answers.
pub data Op : Type 0 where
  register : (ℤ → Bool) → Time → String → ℤ → String → ℤ → String → Op
  unregister : String → Op

unfoldable pub run_calls : List Op → Manager → Manager
run_calls [] m = m
run_calls (register bindable now id lp host rp endpoint ∷ ops) m =
    run_calls ops (register_tunnel_with_endpoint bindable now id lp host rp endpoint m).0
run_calls (unregister id ∷ ops) m = run_calls ops (unregister_tunnel id m).0

run_calls-keeps : (ops : List Op) (m : Manager) → IsValid m → IsValid (run_calls ops m)
unfolding run_calls
run_calls-keeps [] m v = v
run_calls-keeps (register bindable now id lp host rp endpoint ∷ ops) m v =
    run_calls-keeps ops _ (register-IsValid bindable now id lp host rp endpoint m v)
run_calls-keeps (unregister id ∷ ops) m v = run_calls-keeps ops _ (unregister-IsValid id m v)

-- Whatever is registered and unregistered, accepted or not: every tunnel of the registry is active,
-- stands under its own ID, has its ports in 1..65535 and a named host, and no two tunnels share an
-- ID or a local port.
pub run_calls-IsValid : (ops : List Op) → IsValid (run_calls ops new_manager)
unfolding new_manager
run_calls-IsValid ops = run_calls-keeps ops [] tt
