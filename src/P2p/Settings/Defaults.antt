-- ===== src/P2p/Settings/Defaults.antt =====
-- pkg/p2p/types.go: what `FillDefaults` leaves, and the interval that `NewManagerWithAPI` takes.
use Prim.Native.String.{String}
use text.Mathlib.Text.{◌==◌ as str_eq}
use cloudbridge_client.Prelude.{
  ◌≡◌, refl, ap, arith, ◌⊎◌, inl, inr, true, false, Option, none, some, Bool-cases, Option-cases,
  if◌then◌else◌,
}
use cloudbridge_client.Prelude.Int.{ℤ, pos, eqb_ℤ, ◌<ℤ◌}
use cloudbridge_client.Prelude.Time.{Duration, seconds}
use cloudbridge_client.P2p.Settings.{
  Value, duration, Parser, MeshConfig, NetworkConfig, P2pConfig, is_connection_type, normal,
  parse_flexible_duration, or_default, or_text, or_number, fill_mesh_defaults,
  fill_network_defaults, apply_to, fill_defaults, choose_interval, manager_config, or_empty,
}

abbrev pub IsPresent : {A : Type 0} → (A → Type 0) → Option A → Type 0
IsPresent P none = Unit
IsPresent P (some a) = P a

or_text_ne :
    (standard s : String) → str_eq standard "" ≡ false → str_eq (or_text standard s) "" ≡ false
or_text_ne standard s h = elim (Bool-cases (str_eq s "")) [ inl e ↦ rw e h | inr e ↦ rw e e ]

or_text_id : (standard s : String) → str_eq s "" ≡ false → or_text standard s ≡ s
or_text_id standard s h = rw h refl

or_number_ne :
    (standard n : ℤ) → eqb_ℤ standard (pos 0) ≡ false → eqb_ℤ (or_number standard n) (pos 0) ≡ false
or_number_ne standard n h = elim (Bool-cases (eqb_ℤ n (pos 0))) [ inl e ↦ rw e h | inr e ↦ rw e e ]

or_number_id : (standard n : ℤ) → eqb_ℤ n (pos 0) ≡ false → or_number standard n ≡ n
or_number_id standard n h = rw h refl

or_default_pos : (standard d : Duration) → pos 0 <ℤ standard → pos 0 <ℤ or_default standard d
or_default_pos standard d h = ground arith

or_default_id : (standard d : Duration) → pos 0 <ℤ d → or_default standard d ≡ d
or_default_id standard d h = ground arith

module _ (p : Parser) where
  -- An interval that is a duration, or that nothing can be read from.
  abbrev pub IsNormal : Value → Type 0
  IsNormal v = (parse_flexible_duration p v ≡ none) ⊎ ((d : Duration) × (v ≡ duration d))

  pub record IsFilledMesh (m : MeshConfig) : Type 0 where
    pub routes : str_eq m.routing "" ≡ false
    pub encrypts : str_eq m.encryption "" ≡ false
    pub beats : IsNormal m.heartbeat_interval

  pub record IsFilledNetwork (n : NetworkConfig) : Type 0 where
    pub has_mtu : eqb_ℤ n.mtu (pos 0) ≡ false
    pub has_quic : eqb_ℤ n.quic_port (pos 0) ≡ false
    pub has_ice : eqb_ℤ n.ice_port (pos 0) ≡ false

  -- A configuration with its defaults.
  pub record IsFilled (c : P2pConfig) : Type 0 where
    pub typed : is_connection_type c.connection_type ≡ true
    pub interval : pos 0 <ℤ c.heartbeat_interval
    pub timeout : pos 0 <ℤ c.heartbeat_timeout
    pub mesh : IsPresent IsFilledMesh c.mesh_config
    pub network : IsPresent IsFilledNetwork c.network_config

  normal-IsNormal : (v : Value) → IsNormal (normal p v)
  unfolding normal parse_flexible_duration
  normal-IsNormal v = elim (Option-cases (parse_flexible_duration p v)) [
    | inl e ↦ inl (ground arith)
    | inr (d, e) ↦ inr (d, ground arith)
  ]

  normal_id : (v : Value) → IsNormal v → normal p v ≡ v
  unfolding normal parse_flexible_duration
  normal_id v (inl e) = ground arith
  normal_id v (inr (d, e)) = ground arith

  fill_mesh_defaults-IsFilledMesh : (m : MeshConfig) → IsFilledMesh (fill_mesh_defaults p m)
  unfolding fill_mesh_defaults
  fill_mesh_defaults-IsFilledMesh m = record {
    routes = or_text_ne "hybrid" m.routing refl;
    encrypts = or_text_ne "quic" m.encryption refl;
    beats = normal-IsNormal m.heartbeat_interval;
  }

  fill_mesh_defaults_id : (m : MeshConfig) → IsFilledMesh m → fill_mesh_defaults p m ≡ m
  unfolding fill_mesh_defaults
  fill_mesh_defaults_id m h =
      rw
        (
          or_text_id "hybrid" m.routing h.routes,
          or_text_id "quic" m.encryption h.encrypts,
          normal_id m.heartbeat_interval h.beats,
        )
        refl

  fill_network_defaults-IsFilledNetwork :
      (n : NetworkConfig) → IsFilledNetwork (fill_network_defaults n)
  unfolding fill_network_defaults
  fill_network_defaults-IsFilledNetwork n = record {
    has_mtu = or_number_ne (pos 1420) n.mtu refl;
    has_quic = or_number_ne (pos 5553) n.quic_port refl;
    has_ice = or_number_ne (pos 19302) n.ice_port refl;
  }

  fill_network_defaults_id : (n : NetworkConfig) → IsFilledNetwork n → fill_network_defaults n ≡ n
  unfolding fill_network_defaults
  fill_network_defaults_id n h =
      rw
        (
          or_number_id (pos 1420) n.mtu h.has_mtu,
          or_number_id (pos 5553) n.quic_port h.has_quic,
          or_number_id (pos 19302) n.ice_port h.has_ice,
        )
        refl

  present_mesh :
      (o : Option MeshConfig) → IsPresent IsFilledMesh (apply_to (fill_mesh_defaults p) o)
  present_mesh none = tt
  present_mesh (some m) = fill_mesh_defaults-IsFilledMesh m

  present_network :
      (o : Option NetworkConfig) → IsPresent IsFilledNetwork (apply_to fill_network_defaults o)
  present_network none = tt
  present_network (some n) = fill_network_defaults-IsFilledNetwork n

  mesh_id :
      (o : Option MeshConfig) → IsPresent IsFilledMesh o → apply_to (fill_mesh_defaults p) o ≡ o
  mesh_id none h = refl
  mesh_id (some m) h = ap some (fill_mesh_defaults_id m h)

  network_id :
      (o : Option NetworkConfig)
      → IsPresent IsFilledNetwork o
      → apply_to fill_network_defaults o ≡ o
  network_id none h = refl
  network_id (some n) h = ap some (fill_network_defaults_id n h)

  typed_default :
      (s : String) → is_connection_type (if is_connection_type s then s else "p2p-mesh") ≡ true
  unfolding is_connection_type
  typed_default s = elim (Bool-cases (is_connection_type s)) [ inl e ↦ rw e e | inr e ↦ rw e refl ]

  fill_defaults-IsFilled : (c : P2pConfig) → IsFilled (fill_defaults p c)
  unfolding fill_defaults
  fill_defaults-IsFilled c = record {
    typed = typed_default c.connection_type;
    interval = or_default_pos (seconds 30) c.heartbeat_interval (omega arith);
    timeout = or_default_pos (seconds 10) c.heartbeat_timeout (omega arith);
    mesh = present_mesh c.mesh_config;
    network = present_network c.network_config;
  }

  fill_defaults_id : (c : P2pConfig) → IsFilled c → fill_defaults p c ≡ c
  unfolding fill_defaults
  fill_defaults_id c h =
      rw
        (
          h.typed,
          or_default_id (seconds 30) c.heartbeat_interval h.interval,
          or_default_id (seconds 10) c.heartbeat_timeout h.timeout,
          mesh_id c.mesh_config h.mesh,
          network_id c.network_config h.network,
        )
        refl

  pub fill_defaults_twice :
      (c : P2pConfig) → fill_defaults p (fill_defaults p c) ≡ fill_defaults p c
  fill_defaults_twice c = fill_defaults_id (fill_defaults p c) (fill_defaults-IsFilled c)

  choose_interval_id :
      (api : Duration) (c : P2pConfig)
      → pos 0 <ℤ c.heartbeat_interval
      → choose_interval p api c ≡ c.heartbeat_interval
  unfolding choose_interval
  choose_interval_id api c h = ground arith

  -- The interval that `NewManagerWithAPI` takes is the one of the configuration, or 30 s where that is not
  -- positive: neither the mesh part nor the configuration of the API is ever asked.
  pub manager_config_interval :
      (api : Duration) (config : Option P2pConfig)
      → (manager_config p api config).heartbeat_interval
        ≡ or_default (seconds 30) (or_empty config).heartbeat_interval
  unfolding manager_config choose_interval fill_defaults
  manager_config_interval api config =
      let filled = fill_defaults-IsFilled (or_empty config) in
      choose_interval_id api (fill_defaults p (or_empty config)) filled.interval
