-- ===== src/RelayClient/Login.antt =====
-- pkg/relay/client.go: `Authenticate`, over pkg/auth/auth.go. Its locks are short, and no call is made
-- under them.
use Prim.Native.String.{String}
use text.Mathlib.Text.{◌==◌ as str_eq}
use cloudbridge_client.Prelude.{
  ◌≡◌, refl, sym, ◌∙◌, ap, arith, ◌⊎◌, inl, inr, Bool, true, ◌&&◌, not, Bool-cases, Option, none,
  some, Result, ok, err, Result-cases, if◌then◌else◌,
}
use cloudbridge_client.Auth as Auth
use cloudbridge_client.Auth.{Fields, Token, JwtLib, AuthManager}
use cloudbridge_client.Auth.Claims.{get, as_text}
use cloudbridge_client.Auth.Keys.{Outside}
use cloudbridge_client.Auth.Validate.{validate_token}
use cloudbridge_client.Auth.Extract.{extract_claims, extract_connection_type, connection_type_known}
use cloudbridge_client.Auth.Header.{create_auth_message}
use cloudbridge_client.RelayClient.{Client, World, is_type, status_error}

-- The fields of `Client` that a login sets.
pub record Session : Type 0 where
  pub client_id : String
  pub tenant_id : String
  pub token_string : String
  pub connection_type : String

pub data LoginError : Type 0 where
  not_connected adapter_refused not_sent no_response unexpected_type p2p_failed : LoginError
  bad_token bad_claims no_message : Auth.Error → LoginError
  refused : String → LoginError

-- The answer of the adapter to a login, with the client's ID, and whether the P2P manager starts.
pub record Login : Type 0 where
  pub adapter_client_id : Option String
  pub p2p_starts : Bool

abbrev pub Ended : Type 0
Ended = Result LoginError (Unit {0}) × Session

-- `if connType == "p2p-mesh"`
unfoldable pub start_p2p : Login → Session → Ended
start_p2p l s =
    (if str_eq s.connection_type "p2p-mesh" && not l.p2p_starts then err p2p_failed else ok tt, s)

-- `connType = "client-server"` where the token gives none.
abbrev pub or_client_server : Result Auth.Error String → String
or_client_server (ok s) = s
or_client_server (err e) = "client-server"

abbrev pub with_id : Option String → Session → Session
with_id none s = s
with_id (some id) s = record s { client_id = id }

-- The exchange over the JSON connection, once the message is made.
unfoldable pub exchange : World → Login → Session → Ended
exchange w l s = if not w.send then (err not_sent, s) else elim w.receive [
  | none ↦ (err no_response, s)
  | some fs ↦
      if not (is_type "auth_response" fs)
      then (err unexpected_type, s)
      else elim (status_error "authentication failed" fs) [
        | some e ↦ (err (refused e), s)
        | none ↦ start_p2p l (with_id (as_text (get "client_id" fs)) s)
      ]
]

module _ (jwt : JwtLib) (out : Outside jwt.Pub) where
  -- `Authenticate` with a token that was accepted, its tenant and its connection type.
  unfoldable pub log_in :
      World
      → Login
      → Client
      → String
      → String
      → String
      → Session
      → AuthManager jwt.Pub
      → Ended × AuthManager jwt.Pub
  log_in w l c token tenant kind s am =
      let s' = record s { tenant_id = tenant; token_string = token; connection_type = kind } in
      let (message, am') = create_auth_message jwt out token am in
      if c.use_transport_adapter
      then elim l.adapter_client_id [
        | none ↦ ((err adapter_refused, s), am)
        | some id ↦ (start_p2p l (record s' { client_id = id }), am)
      ]
      else elim message [ err e ↦ ((err (no_message e), s'), am') | ok m ↦ (exchange w l s', am') ]

  -- `Authenticate`.
  unfoldable pub authenticate :
      World → Login → Client → String → Session → AuthManager jwt.Pub → Ended × AuthManager jwt.Pub
  authenticate w l c token s am =
      if not c.connected
      then ((err not_connected, s), am)
      else let (checked, am') = validate_token jwt out token am in
        elim checked [
          | err e ↦ ((err (bad_token e), s), am')
          | ok t ↦ elim (extract_claims t) [
            | err e ↦ ((err (bad_claims e), s), am')
            | ok ids ↦ log_in w l c token ids.1 (or_client_server (extract_connection_type t)) s am'
          ]
        ]

  -- What a login that succeeded has left: the token was accepted by the client itself, and the session
  -- has it, with the tenant of its claims and one of the three connection types.
  pub record IsLoggedIn (token : String) (am : AuthManager jwt.Pub) (s : Session) : Type 0 where
    pub accepted : Token
    pub valid : (validate_token jwt out token am).0 ≡ ok accepted
    pub subject : String
    pub tenant : extract_claims accepted ≡ ok (subject, s.tenant_id)
    pub kept : s.token_string ≡ token
    pub kind :
        (s.connection_type ≡ "p2p-mesh")
        ⊎ ((s.connection_type ≡ "client-server") ⊎ (s.connection_type ≡ "server-server"))

  -- What the steps after the check keep of the session.
  Keeps : String → String → String → Session → Type 0
  Keeps token tenant kind s =
      (s.tenant_id ≡ tenant) × (s.token_string ≡ token) × (s.connection_type ≡ kind)

  log_in-Keeps :
      (w : World) (l : Login) (c : Client) (token tenant kind : String) (s : Session)
      (am : AuthManager jwt.Pub)
      → (log_in w l c token tenant kind s am).0.0 ≡ ok tt
      → Keeps token tenant kind (log_in w l c token tenant kind s am).0.1
  unfolding log_in exchange start_p2p Keeps
  log_in-Keeps w l c token tenant kind s am h = ground arith

  known :
      (t : Token)
      → (or_client_server (extract_connection_type t) ≡ "p2p-mesh")
        ⊎ ((or_client_server (extract_connection_type t) ≡ "client-server")
            ⊎ (or_client_server (extract_connection_type t) ≡ "server-server"))
  known t = elim (Result-cases (extract_connection_type t)) [
    | inl (s, e) ↦ rw e (connection_type_known t s e)
    | inr (x, e) ↦ rw e (inr (inl refl))
  ]

  -- Where `Authenticate` succeeds, over the adapter or the JSON connection, the client was connected, it
  -- accepted the token itself, and the session has the token, the tenant of its claims, and one of the
  -- three connection types.
  pub authenticate-IsLoggedIn :
      (w : World) (l : Login) (c : Client) (token : String) (s : Session) (am : AuthManager jwt.Pub)
      → (authenticate w l c token s am).0.0 ≡ ok tt
      → (c.connected ≡ true) × IsLoggedIn token am (authenticate w l c token s am).0.1
  unfolding authenticate Keeps
  authenticate-IsLoggedIn w l c token s am h = elim (Bool-cases c.connected) [
    | inr off ↦ absurd (ground arith)
    | inl on ↦ elim (Result-cases (validate_token jwt out token am).0) [
      | inr (e, bad) ↦ absurd (ground arith)
      | inl (t, good) ↦ elim (Result-cases (extract_claims t)) [
        | inr (e, bad) ↦ absurd (ground arith)
        | inl (ids, found) ↦
            let kind = or_client_server (extract_connection_type t) in
            let am' = (validate_token jwt out token am).1 in
            let same : (authenticate w l c token s am).0 ≡ (log_in w l c token ids.1 kind s am').0 =
              ground arith in
            let (tenant, tok, kept) =
              log_in-Keeps w l c token ids.1 kind s am' (sym (ap (λ (x : Ended). x.0) same) ∙ h) in
            (
              on,
              rw same (record {
                accepted = t;
                valid = good;
                subject = ids.0;
                tenant = rw tenant found;
                kept = tok;
                kind = rw kept (known t);
              }),
            )
      ]
    ]
  ]
