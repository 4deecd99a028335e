-- ===== src/P2p/Settings/Extracted.antt =====
-- pkg/p2p/manager.go: what `ExtractP2PConfigFromToken` reads, and what the mesh makes of it.
use Prim.Native.String.{String}
use cloudbridge_client.Prelude.{
  ◌≡◌, ◌≢◌, refl, sym, ap, ◌∙◌, arith, inl, inr, Option, none, some, List, Result, ok, err,
  if◌then◌else◌,
}
use cloudbridge_client.Prelude.Int.{pos, ◌<ℤ◌}
use cloudbridge_client.Prelude.Time.{seconds}
use cloudbridge_client.Auth.{Token, Error}
use cloudbridge_client.Auth.Extract.{
  extract_connection_type, extract_network_config, extract_mesh_config, extract_peer_whitelist,
  extract_permissions, extract_tenant_id, connection_type_known, PeerWhitelist,
}
use cloudbridge_client.Auth.Extract
use cloudbridge_client.Mesh.Config
use cloudbridge_client.P2p.Settings.{
  Parser, MeshConfig, P2pConfig, is_connection_type, fill_mesh_defaults, apply_to, fill_defaults,
  convert, convert_mesh, convert_network, then_ok, extract_p2p_config_from_token, mesh_settings,
}
use cloudbridge_client.P2p.Settings.Defaults.{fill_defaults_twice}

then_ok-ok :
    {A B : Type 0} (r : Result Error A) (f : A → Result Error B) (b : B)
    → then_ok r f ≡ ok b
    → (a : A) × (r ≡ ok a) × (f a ≡ ok b)
then_ok-ok (ok a) f b h = (a, refl, h)
then_ok-ok (err e) f b h = absurd (ground arith)

ok-inj : {A : Type 0} {a b : A} → Path (Result Error A) (ok a) (ok b) → b ≡ a
ok-inj h = ground arith

-- What was read, part by part, before the defaults.
record Parts (t : Token) : Type 0 where
  kind : String
  network : Option Extract.NetworkConfig
  mesh : Option Extract.MeshConfig
  whitelist : Option PeerWhitelist
  permissions : List String
  tenant : String
  kind_read : extract_connection_type t ≡ ok kind
  network_read : extract_network_config t ≡ ok network
  mesh_read : extract_mesh_config t ≡ ok mesh
  whitelist_read : extract_peer_whitelist t ≡ ok whitelist
  permissions_read : extract_permissions t ≡ ok permissions
  tenant_read : extract_tenant_id t ≡ ok tenant

abbrev assembled : {t : Token} → Parts t → P2pConfig
assembled q = record {
  connection_type = q.kind;
  mesh_config = convert convert_mesh q.mesh;
  peer_whitelist = q.whitelist;
  network_config = convert convert_network q.network;
  tenant_id = q.tenant;
  permissions = q.permissions;
  heartbeat_interval = pos 0;
  heartbeat_timeout = pos 0;
}

module _ (p : Parser) where
  extract_p2p_config-Parts :
      (t : Token) (c : P2pConfig)
      → extract_p2p_config_from_token p t ≡ ok c
      → (q : Parts t) × (c ≡ fill_defaults p (assembled q))
  unfolding extract_p2p_config_from_token
  extract_p2p_config-Parts t c h =
      let (kind, k, h1) = then_ok-ok (extract_connection_type t) _ c h in
      let (network, n, h2) = then_ok-ok (extract_network_config t) _ c h1 in
      let (mesh, m, h3) = then_ok-ok (extract_mesh_config t) _ c h2 in
      let (whitelist, w, h4) = then_ok-ok (extract_peer_whitelist t) _ c h3 in
      let (permissions, s, h5) = then_ok-ok (extract_permissions t) _ c h4 in
      let (tenant, i, h6) = then_ok-ok (extract_tenant_id t) _ c h5 in
      (
        record {
          kind = kind;
          network = network;
          mesh = mesh;
          whitelist = whitelist;
          permissions = permissions;
          tenant = tenant;
          kind_read = k;
          network_read = n;
          mesh_read = m;
          whitelist_read = w;
          permissions_read = s;
          tenant_read = i;
        },
        ok-inj h6,
      )

  kind_kept :
      (t : Token) (s : String)
      → extract_connection_type t ≡ ok s
      → (if is_connection_type s then s else "p2p-mesh") ≡ s
  unfolding is_connection_type
  kind_kept t s h = elim (connection_type_known t s h) [
    | inl e ↦ rw e refl
    | inr (inl e) ↦ rw e refl
    | inr (inr e) ↦ rw e refl
  ]

  -- A configuration read from a token has the connection type, the tenant, the permissions and the
  -- whitelist of the token's claims, a heartbeat every 30 s and a timeout of 10 s, whatever interval the
  -- token's mesh part asks for.
  pub extracted_settings :
      (t : Token) (c : P2pConfig)
      → extract_p2p_config_from_token p t ≡ ok c
      → (extract_connection_type t ≡ ok c.connection_type)
        × (extract_tenant_id t ≡ ok c.tenant_id)
        × (extract_permissions t ≡ ok c.permissions)
        × (extract_peer_whitelist t ≡ ok c.peer_whitelist)
        × (c.heartbeat_interval ≡ seconds 30)
        × (c.heartbeat_timeout ≡ seconds 10)
  unfolding fill_defaults
  extracted_settings t c h =
      let (q, e) = extract_p2p_config-Parts t c h in
      rw (e, kind_kept t q.kind q.kind_read)
        (q.kind_read, q.tenant_read, q.permissions_read, q.whitelist_read, refl, refl)

  -- What was read has its defaults.
  pub filled_again :
      (t : Token) (c : P2pConfig) → extract_p2p_config_from_token p t ≡ ok c → fill_defaults p c ≡ c
  filled_again t c h =
      let (q, e) = extract_p2p_config-Parts t c h in rw e (fill_defaults_twice p (assembled q))

  mesh_of :
      (o : Option Extract.MeshConfig) (m : MeshConfig)
      → apply_to (fill_mesh_defaults p) (convert convert_mesh o) ≡ some m
      → m.topology_interval ≡ pos 0
  unfolding fill_mesh_defaults convert_mesh
  mesh_of none m h = absurd (ground arith)
  mesh_of (some a) m h = ground arith

  -- A mesh part that was read from a token never lets the mesh network start, since its intervals stay 0.
  pub extracted_mesh_never_starts :
      (t : Token) (c : P2pConfig) (m : MeshConfig)
      → extract_p2p_config_from_token p t ≡ ok c
      → c.mesh_config ≡ some m
      → Config.start (mesh_settings p m) ≢ none
  unfolding fill_defaults mesh_settings fill_mesh_defaults
  extracted_mesh_never_starts t c m h there started =
      let (q, e) = extract_p2p_config-Parts t c h in
      let still : m.topology_interval ≡ pos 0 =
        mesh_of q.mesh m (ap (λ x. x.mesh_config) (sym e) ∙ there) in
      let positive : pos 0 <ℤ m.topology_interval =
        ((Config.start_iff (mesh_settings p m)).0 started).topology in
      ground arith
