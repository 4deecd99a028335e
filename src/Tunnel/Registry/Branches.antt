-- ===== src/Tunnel/Registry/Branches.antt =====
-- Every branch of the registry's operations: when a registration is accepted, and what a lookup
-- gives afterwards.
use Prim.Native.String.{String}
use text.Mathlib.Text.{◌==◌ as str_eq}
use text.Mathlib.TextEquality.{eq_iff}
use cloudbridge_client.Prelude.{
  ap, ◌≡◌, refl, arith, Bool, true, false, none, some, [], ◌∷◌, ok, Bool-cases, inl, inr, ◌↔◌,
}
use cloudbridge_client.Prelude.Int.{ℤ}
use cloudbridge_client.Prelude.Time.{Time}
use cloudbridge_client.Prelude.StringMap.{lookup, insert, delete, lookup-insert_self}
use cloudbridge_client.Tunnel.Registry.{
  Tunnel, Manager, Error, taken, is_port_in_use, bad_port, validate_tunnel_params,
  register_tunnel_with_endpoint, unregister_tunnel,
}

-- What a registration asks for.
pub record Acceptable (bindable : ℤ → Bool) (id : String) (lp : ℤ) (host : String) (rp : ℤ)
    (m : Manager) : Type 0 where
  pub local_ok : bad_port lp ≡ false
  pub hosted : str_eq host "" ≡ false
  pub remote_ok : bad_port rp ≡ false
  pub free : taken lp m ≡ false
  pub bound : bindable lp ≡ true
  pub fresh : lookup id m ≡ none

-- The tunnel that a registration makes.
abbrev pub made : Time → String → ℤ → String → ℤ → String → Tunnel
made now id lp host rp endpoint = record {
  id = id;
  local_port = lp;
  remote_host = host;
  remote_port = rp;
  relay_endpoint = endpoint;
  active = true;
  created_at = now;
}

module _ (bindable : ℤ → Bool) (now : Time) (id : String) (lp : ℤ) (host : String) (rp : ℤ)
    (endpoint : String) (m : Manager) where
  pub accepts :
      Acceptable bindable id lp host rp m
      → (register_tunnel_with_endpoint bindable now id lp host rp endpoint m)
        ≡ (insert id (made now id lp host rp endpoint) m, none)
  unfolding register_tunnel_with_endpoint validate_tunnel_params is_port_in_use
  accepts a = ground (arith, a.local_ok, a.hosted, a.remote_ok, a.free, a.bound, a.fresh)

  pub accepted_only :
      (register_tunnel_with_endpoint bindable now id lp host rp endpoint m).1 ≡ none
      → Acceptable bindable id lp host rp m
  unfolding register_tunnel_with_endpoint validate_tunnel_params is_port_in_use
  accepted_only h = ground arith

  -- A registration is accepted exactly if both ports are in 1..65535, the host is named, no active
  -- tunnel has the local port, the system lets it be bound, and the ID is new.
  register-accepts_iff :
      ((register_tunnel_with_endpoint bindable now id lp host rp endpoint m).1 ≡ none)
      ↔ Acceptable bindable id lp host rp m
  register-accepts_iff = (accepted_only, λ a. rw (accepts a) refl)

  -- A refused registration changes nothing.
  pub register_refused :
      {e : Error}
      → (register_tunnel_with_endpoint bindable now id lp host rp endpoint m).1 ≡ some e
      → (register_tunnel_with_endpoint bindable now id lp host rp endpoint m).0 ≡ m
  unfolding register_tunnel_with_endpoint
  register_refused h = ground arith

delete-insert :
    (id : String) (t : Tunnel) (m : Manager) → lookup id m ≡ none → delete id (insert id t m) ≡ m
unfolding lookup insert delete
delete-insert id t [] h = ground (arith, eq_iff id id)
delete-insert id t ((k, x) ∷ m) h = elim (Bool-cases (str_eq k id)) [
  | inl same ↦ absurd (ground arith)
  | inr other ↦
      rw (other, insert)
        (rw (other, delete) (ap (◌∷◌ (k, x)) (delete-insert id t m (ground arith))))
]

-- Unregistering a tunnel right after its registration gives back the registry as it was, and the
-- tunnel, switched off for the proxy loop that still holds it.
register-unregister :
    (bindable : ℤ → Bool) (now : Time) (id : String) (lp : ℤ) (host : String) (rp : ℤ)
    (endpoint : String) (m : Manager)
    → Acceptable bindable id lp host rp m
    → let m' = (register_tunnel_with_endpoint bindable now id lp host rp endpoint m).0 in
      unregister_tunnel id m'
      ≡ (m, ok (record (made now id lp host rp endpoint) { active = false }))
unfolding unregister_tunnel
register-unregister bindable now id lp host rp endpoint m a = ground (
  arith,
  accepts bindable now id lp host rp endpoint m a,
  lookup-insert_self id (made now id lp host rp endpoint) m,
  delete-insert id (made now id lp host rp endpoint) m a.fresh,
)
