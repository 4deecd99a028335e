-- ===== src/Auth/Extract.antt =====
-- pkg/auth/auth.go: what is read out of a validated token.
use Prim.Native.String.{String}
use text.Mathlib.Text.{◌==◌ as str_eq}
use cloudbridge_client.Prelude.{
  ◌≡◌, ◌≢◌, arith, ◌⊎◌, inl, inr, Bool, false, ◌||◌, Option, none, some, List, [], ◌∷◌, Result, ok,
  err, if◌then◌else◌, Option-cases,
}
use cloudbridge_client.Prelude.Int.{ℤ, pos}
use cloudbridge_client.Auth.{Json, Jsons, Fields, Token, Error, no_claims, no_subject}
use cloudbridge_client.Auth.Claims.{
  get, as_text, as_bool, as_int, as_array, as_object, texts, has_text,
}

abbrev pub or_text : Option String → String → String
or_text none d = d
or_text (some s) d = s

abbrev pub or_false : Option Bool → Bool
or_false none = false
or_false (some b) = b

abbrev pub or_zero : Option ℤ → ℤ
or_zero none = pos 0
or_zero (some n) = n

-- The strings of an array, none if it is no array.
abbrev pub or_texts : Option Jsons → List String
or_texts none = []
or_texts (some vs) = texts vs

-- `claims, ok := token.Claims.(jwt.MapClaims)`
abbrev pub with_claims {ℓ} : {A : Type ℓ} → Token → (Fields → Result Error A) → Result Error A
with_claims t f = elim t.claims [ none ↦ err no_claims | some fs ↦ f fs ]

-- `ExtractSubject`.
unfoldable pub extract_subject : Token → Result Error String
extract_subject t =
    with_claims t (λ fs. elim (as_text (get "sub" fs)) [ none ↦ err no_subject | some s ↦ ok s ])

-- `ExtractTenantID`: empty if the claim is missing.
unfoldable pub extract_tenant_id : Token → Result Error String
extract_tenant_id t = with_claims t (λ fs. ok (or_text (as_text (get "tenant_id" fs)) ""))

-- `ExtractClaims`.
unfoldable pub extract_claims : Token → Result Error (String × String)
extract_claims t = elim (extract_subject t) [
  | err e ↦ err e
  | ok subject ↦ elim (extract_tenant_id t) [ err e ↦ err e | ok tenant ↦ ok (subject, tenant) ]
]

-- `determineConnectionTypeFromClaims`.
unfoldable pub determine_connection_type : Fields → String
determine_connection_type fs = elim (as_array (get "permissions" fs)) [
  | none ↦ "client-server"
  | some vs ↦
      if has_text "mesh:connect" vs || has_text "mesh:discover" vs
      then "p2p-mesh"
      else "client-server"
]

-- The `switch` of `ExtractConnectionType`.
unfoldable pub map_connection_type : String → String
map_connection_type s =
    if str_eq s "wireguard"
    then "p2p-mesh"
    else if str_eq s "p2p-mesh"
    then "p2p-mesh"
    else if str_eq s "client-server"
    then "client-server"
    else if str_eq s "server-server"
    then "server-server"
    else "p2p-mesh"

-- `ExtractConnectionType`.
unfoldable pub extract_connection_type : Token → Result Error String
extract_connection_type t = with_claims t (λ fs. elim (as_text (get "connection_type" fs)) [
  | none ↦ ok (determine_connection_type fs)
  | some s ↦ ok (map_connection_type s)
])

pub record QuicConfig : Type 0 where
  pub public_key : String
  pub allowed_ips : List String

-- `if len(config.AllowedIPs) == 0`
abbrev pub or_default_ips : List String → List String
or_default_ips [] = "10.0.0.0/24" ∷ []
or_default_ips (ip ∷ ips) = ip ∷ ips

-- `ExtractQUICConfig`; `generated` is the key that the clock makes.
unfoldable pub extract_quic_config : String → Token → Result Error QuicConfig
extract_quic_config generated t = with_claims t (λ fs. elim (as_object (get "quic_config" fs)) [
  | none ↦ ok (record { public_key = generated; allowed_ips = "10.0.0.0/24" ∷ [] })
  | some q ↦
      let key = or_text (as_text (get "public_key" q)) "" in
      ok (record {
        public_key = if str_eq key "" then generated else key;
        allowed_ips = or_default_ips (or_texts (as_array (get "allowed_ips" q)));
      })
])

pub record MeshConfig : Type 0 where
  pub auto_discovery : Bool
  pub persistent : Bool
  pub routing : String
  pub encryption : String
  pub heartbeat_interval : Option Json

-- `ExtractMeshConfig`; none if there is no such object.
unfoldable pub extract_mesh_config : Token → Result Error (Option MeshConfig)
extract_mesh_config t = with_claims t (λ fs. elim (as_object (get "mesh_config" fs)) [
  | none ↦ ok none
  | some m ↦ ok (
      some (record {
        auto_discovery = or_false (as_bool (get "auto_discovery" m));
        persistent = or_false (as_bool (get "persistent" m));
        routing = or_text (as_text (get "routing" m)) "";
        encryption = or_text (as_text (get "encryption" m)) "";
        heartbeat_interval = get "heartbeat_interval" m;
      }))
])

pub record PeerWhitelist : Type 0 where
  pub allowed_peers : List String
  pub auto_approve : Bool
  pub max_peers : ℤ

-- `ExtractPeerWhitelist`.
unfoldable pub extract_peer_whitelist : Token → Result Error (Option PeerWhitelist)
extract_peer_whitelist t = with_claims t (λ fs. elim (as_object (get "peer_whitelist" fs)) [
  | none ↦ ok none
  | some w ↦ ok (
      some (record {
        allowed_peers = or_texts (as_array (get "allowed_peers" w));
        auto_approve = or_false (as_bool (get "auto_approve" w));
        max_peers = or_zero (as_int (get "max_peers" w));
      }))
])

pub record NetworkConfig : Type 0 where
  pub subnet : String
  pub dns : List String
  pub mtu : ℤ

-- `ExtractNetworkConfig`.
unfoldable pub extract_network_config : Token → Result Error (Option NetworkConfig)
extract_network_config t = with_claims t (λ fs. elim (as_object (get "network_config" fs)) [
  | none ↦ ok none
  | some n ↦ ok (
      some (record {
        subnet = or_text (as_text (get "subnet" n)) "";
        dns = or_texts (as_array (get "dns" n));
        mtu = or_zero (as_int (get "mtu" n));
      }))
])

-- `ExtractPermissions`.
unfoldable pub extract_permissions : Token → Result Error (List String)
extract_permissions t = with_claims t (λ fs. ok (or_texts (as_array (get "permissions" fs))))

-- A connection type read from a token is one of the three that the client knows.
pub connection_type_known :
    (t : Token) (s : String)
    → extract_connection_type t ≡ ok s
    → (s ≡ "p2p-mesh") ⊎ ((s ≡ "client-server") ⊎ (s ≡ "server-server"))
unfolding extract_connection_type determine_connection_type map_connection_type
connection_type_known t s h = ground arith

default_ips_ne : (ips : List String) → or_default_ips ips ≢ []
default_ips_ne [] = λ e. cc
default_ips_ne (ip ∷ ips) = λ e. cc

-- A QUIC configuration read from a token has a public key, if the generated one is not empty, and an
-- allowed address range.
pub quic_config_usable :
    (generated : String) (t : Token) (q : QuicConfig)
    → str_eq generated "" ≡ false
    → extract_quic_config generated t ≡ ok q
    → (str_eq q.public_key "" ≡ false) × (q.allowed_ips ≢ [])
unfolding extract_quic_config
quic_config_usable generated t q g h = elim (Option-cases t.claims) [
  | inl no_claims' ↦ absurd (ground arith)
  | inr (fs, claims) ↦ elim (Option-cases (as_object (get "quic_config" fs))) [
    | inl plain ↦
        let e : q ≡ record { public_key = generated; allowed_ips = "10.0.0.0/24" ∷ [] } =
          ground arith in
        rw e (g, default_ips_ne [])
    | inr (o, found) ↦
        let key = or_text (as_text (get "public_key" o)) "" in
        let ips = or_texts (as_array (get "allowed_ips" o)) in
        let e : q ≡ record {
          public_key = if str_eq key "" then generated else key;
          allowed_ips = or_default_ips ips;
        } =
          ground arith in
        rw e (ground (arith, g), default_ips_ne ips)
  ]
]
