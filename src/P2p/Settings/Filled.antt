-- ===== src/P2p/Settings/Filled.antt =====
-- pkg/p2p/types.go: what `FillDefaults` keeps and fills in, field by field.
use Prim.Native.String.{String}
use text.Mathlib.TextEquality.{eq_iff}
use cloudbridge_client.Prelude.{
  ◌≢◌, ◌≡◌, refl, arith, ◌⊎◌, inl, inr, Option, none, some, Option-cases, if◌then◌else◌,
}
use cloudbridge_client.Prelude.Int.{ℤ, pos, eqb_ℤ_iff, ◌<ℤ◌, ◌≤ℤ◌}
use cloudbridge_client.Prelude.Time.{Duration, seconds}
use cloudbridge_client.P2p.Settings.{
  Value, duration, Parser, MeshConfig, NetworkConfig, P2pConfig, is_connection_type, normal,
  parse_flexible_duration, or_default, or_text, or_number, fill_mesh_defaults,
  fill_network_defaults, apply_to, fill_defaults,
}

module _ (p : Parser) where
  -- What an unset number, duration or text becomes.
  abbrev pub DurationOr : ℤ → ℤ → ℤ → Type 0
  DurationOr standard d d' = ((pos 0 <ℤ d) × (d' ≡ d)) ⊎ ((d ≤ℤ pos 0) × (d' ≡ standard))

  abbrev pub NumberOr : ℤ → ℤ → ℤ → Type 0
  NumberOr standard n n' = ((n ≢ pos 0) × (n' ≡ n)) ⊎ ((n ≡ pos 0) × (n' ≡ standard))

  abbrev pub TextOr : String → String → String → Type 0
  TextOr standard s s' = ((s ≢ "") × (s' ≡ s)) ⊎ ((s ≡ "") × (s' ≡ standard))

  abbrev pub TypeOr : String → String → Type 0
  TypeOr s s' =
      (((s ≡ "client-server") ⊎ ((s ≡ "server-server") ⊎ (s ≡ "p2p-mesh"))) × (s' ≡ s))
      ⊎ ((s ≢ "client-server") × (s ≢ "server-server") × (s ≢ "p2p-mesh") × (s' ≡ "p2p-mesh"))

  -- An interval that can be read becomes that duration.
  abbrev pub IntervalSet : Value → Value → Type 0
  IntervalSet v v' =
      ((d : Duration) × (parse_flexible_duration p v ≡ some d) × (v' ≡ duration d))
      ⊎ ((parse_flexible_duration p v ≡ none) × (v' ≡ v))

  -- The parts of a configuration before and after its defaults.
  abbrev pub MeshSet : Option MeshConfig → Option MeshConfig → Type 0
  MeshSet none m' = m' ≡ none
  MeshSet (some m) none = ⊥
  MeshSet (some m) (some m') =
      TextOr "hybrid" m.routing m'.routing
      × TextOr "quic" m.encryption m'.encryption
      × IntervalSet m.heartbeat_interval m'.heartbeat_interval
      × (m' ≡ record m {
        routing = m'.routing;
        encryption = m'.encryption;
        heartbeat_interval = m'.heartbeat_interval;
      })

  abbrev pub NetworkSet : Option NetworkConfig → Option NetworkConfig → Type 0
  NetworkSet none n' = n' ≡ none
  NetworkSet (some n) none = ⊥
  NetworkSet (some n) (some n') =
      NumberOr (pos 1420) n.mtu n'.mtu
      × NumberOr (pos 5553) n.quic_port n'.quic_port
      × NumberOr (pos 19302) n.ice_port n'.ice_port
      × (n' ≡ record n { mtu = n'.mtu; quic_port = n'.quic_port; ice_port = n'.ice_port })

  pub record HasDefaults (c c' : P2pConfig) : Type 0 where
    pub interval : DurationOr (seconds 30) c.heartbeat_interval c'.heartbeat_interval
    pub timeout : DurationOr (seconds 10) c.heartbeat_timeout c'.heartbeat_timeout
    pub typed : TypeOr c.connection_type c'.connection_type
    pub mesh : MeshSet c.mesh_config c'.mesh_config
    pub network : NetworkSet c.network_config c'.network_config
    pub others : c' ≡ record c {
      heartbeat_interval = c'.heartbeat_interval;
      heartbeat_timeout = c'.heartbeat_timeout;
      connection_type = c'.connection_type;
      mesh_config = c'.mesh_config;
      network_config = c'.network_config;
    }

  duration_set : (standard d : ℤ) → DurationOr standard d (or_default standard d)
  duration_set standard d = ground arith

  number_set : (standard n : ℤ) → NumberOr standard n (or_number standard n)
  number_set standard n = ground (arith, eqb_ℤ_iff n (pos 0))

  text_set : (standard s : String) → TextOr standard s (or_text standard s)
  text_set standard s = ground (arith, eq_iff s "")

  type_set : (s : String) → TypeOr s (if is_connection_type s then s else "p2p-mesh")
  unfolding is_connection_type
  type_set s =
      ground (arith, eq_iff s "client-server", eq_iff s "server-server", eq_iff s "p2p-mesh")

  interval_set : (v : Value) → IntervalSet v (normal p v)
  unfolding normal
  interval_set v = elim (Option-cases (parse_flexible_duration p v)) [
    | inl e ↦ inr (e, ground arith)
    | inr (d, e) ↦ inl (d, e, ground arith)
  ]

  mesh_set : (o : Option MeshConfig) → MeshSet o (apply_to (fill_mesh_defaults p) o)
  unfolding fill_mesh_defaults
  mesh_set none = refl
  mesh_set (some m) = (
    text_set "hybrid" m.routing,
    text_set "quic" m.encryption,
    interval_set m.heartbeat_interval,
    refl,
  )

  network_set : (o : Option NetworkConfig) → NetworkSet o (apply_to fill_network_defaults o)
  unfolding fill_network_defaults
  network_set none = refl
  network_set (some n) = (
    number_set (pos 1420) n.mtu,
    number_set (pos 5553) n.quic_port,
    number_set (pos 19302) n.ice_port,
    refl,
  )

  pub fill_defaults-HasDefaults : (c : P2pConfig) → HasDefaults c (fill_defaults p c)
  unfolding fill_defaults
  fill_defaults-HasDefaults c = record {
    interval = duration_set (seconds 30) c.heartbeat_interval;
    timeout = duration_set (seconds 10) c.heartbeat_timeout;
    typed = type_set c.connection_type;
    mesh = mesh_set c.mesh_config;
    network = network_set c.network_config;
    others = refl;
  }
