-- ===== src/Api/Manager/Register.antt =====
-- pkg/api/manager.go: what a registration rests on, over pkg/auth/auth.go.
use Prim.Native.String.{String}
use text.Mathlib.Text.{◌==◌ as str_eq}
use text.Mathlib.TextEquality.{eq_iff}
use cloudbridge_client.Prelude.{
  ◌≡◌, ◌≢◌, arith, ◌⊎◌, inl, inr, true, false, List, [], ◌∷◌, ok, err, Result-cases, Bool-cases,
}
use cloudbridge_client.Prelude.Time.{Time}
use cloudbridge_client.RelayErrors.Contains.{Bytes}
use cloudbridge_client.Auth.{Token, secret, JwtLib}
use cloudbridge_client.Auth.Keys.{Outside}
use cloudbridge_client.Auth.Validate.{
  validate_token, validate_jwt_token, secret_candidates, wants_fallback,
}
use cloudbridge_client.Auth.Validate.Hmac.{jwt_token_signed, OneOf}
use cloudbridge_client.Auth.Extract.{extract_quic_config, quic_config_usable, QuicConfig}
use cloudbridge_client.Api.Manager.{
  check_token, register, Registration, Relay, Manager, called, or_ips, store_registration,
  send_registration, registration_of, register_peer, register_peer_with, RegisterError,
}

module _ (jwt : JwtLib) (out : Outside jwt.Pub) (r : Relay) where
  -- A registration that is refused before its request leaves the peer's ids as they are.
  abbrev pub SameIds : Manager jwt.Pub → Manager jwt.Pub → Type 0
  SameIds m m' = (m'.peer_id ≡ m.peer_id) × (m'.relay_session_id ≡ m.relay_session_id)

  log-send_registration :
      (q : Registration) (m : Manager jwt.Pub)
      → (send_registration jwt out r q m).1.log ≡ register q ∷ m.log
  unfolding send_registration store_registration
  log-send_registration q m = ground arith

  failed_keeps_ids :
      (q : Registration) (m : Manager jwt.Pub) (e : RegisterError r)
      → (send_registration jwt out r q m).0 ≡ err e
      → SameIds m (send_registration jwt out r q m).1
  unfolding send_registration store_registration
  failed_keeps_ids q m e h = ground arith

  -- What a successful `registerPeer` has done: the token was accepted, and the call of RegisterPeer that was
  -- made last carries the QUIC configuration of that token.
  record Rests (now : Time) (m m' : Manager jwt.Pub) : Type 0 where
    token : Token
    accepted : (validate_token jwt out m.token m.auth).0 ≡ ok token
    quic : QuicConfig
    extracted : extract_quic_config (r.generated_key now) token ≡ ok quic
    sent : m'.log ≡ register (registration_of jwt out r now quic) ∷ check_token ∷ m.log

  register_peer-Rests :
      (now : Time) (m : Manager jwt.Pub)
      → (register_peer jwt out r now m).0 ≡ ok tt
      → Rests now m (register_peer jwt out r now m).1
  unfolding register_peer
  register_peer-Rests now m h = elim (Result-cases (validate_token jwt out m.token m.auth).0) [
    | inr (e, bad) ↦ absurd (ground arith)
    | inl (t, good) ↦ elim (Result-cases (extract_quic_config (r.generated_key now) t)) [
      | inr (e, bad) ↦ absurd (ground arith)
      | inl (q, found) ↦ record {
        token = t;
        accepted = good;
        quic = q;
        extracted = found;
        sent =
            (let last = log-send_registration (registration_of jwt out r now q) (
                called check_token
                  (record m { auth = (validate_token jwt out m.token m.auth).1 })) in
              ground arith);
      }
    ]
  ]

  validated_by_jwt :
      (m : Manager jwt.Pub) (t : Token)
      → str_eq m.auth.config.kind "jwt" ≡ true
      → (validate_token jwt out m.token m.auth).0 ≡ ok t
      → validate_jwt_token jwt out m.auth.config m.token ≡ ok t
  unfolding validate_token
  validated_by_jwt m t mode h = ground arith

  key-registration_of :
      (now : Time) (q : QuicConfig)
      → str_eq q.public_key "" ≡ false
      → (registration_of jwt out r now q).public_key ≡ q.public_key
  unfolding registration_of
  key-registration_of now q h = ground arith

  or_ips_ne : (d : String) (ips : List String) → or_ips jwt out r d ips ≢ []
  or_ips_ne d [] = λ e. cc
  or_ips_ne d (ip ∷ ips) = λ e. cc

  -- `registerPeer` with a token in the HMAC mode that does not skip validation, where it succeeds: the
  -- token is signed with a form of the configured secret or, where its header asks for it, of the
  -- fallback secret; and RegisterPeer was called once, with a public key that is not empty, if the generated
  -- one is not, and at least one address range.
  pub registered_token_signed :
      (now : Time) (m : Manager jwt.Pub)
      → m.auth.config.kind ≡ "jwt"
      → m.auth.config.skip_validation ≡ false
      → str_eq (r.generated_key now) "" ≡ false
      → (register_peer jwt out r now m).0 ≡ ok tt
      → ((k : Bytes) × jwt.Signed (secret k) m.token
          × ((OneOf k (secret_candidates jwt out m.auth.config.fallback_secret)
                × (wants_fallback jwt out m.auth.config m.token ≡ true))
              ⊎ OneOf k (secret_candidates jwt out m.auth.config.secret)))
        × ((q : Registration) × ((register_peer jwt out r now m).1.log
              ≡ register q ∷ check_token ∷ m.log)
            × (str_eq q.public_key "" ≡ false)
            × (q.allowed_ips ≢ []))
  unfolding registration_of
  registered_token_signed now m kind strict key h =
      let rests = register_peer-Rests now m h in
      let jwt_mode : str_eq m.auth.config.kind "jwt" ≡ true =
        (eq_iff m.auth.config.kind "jwt").1 kind in
      let accepted : validate_jwt_token jwt out m.auth.config m.token ≡ ok rests.token =
        validated_by_jwt m rests.token jwt_mode rests.accepted in
      let (hmac, valid, signed) =
        jwt_token_signed jwt out m.auth.config m.token rests.token strict accepted in
      let (has_key, has_ips) =
        quic_config_usable (r.generated_key now) rests.token rests.quic key rests.extracted in
      (
        signed,
        (
          registration_of jwt out r now rests.quic,
          rests.sent,
          rw (key-registration_of now rests.quic has_key) has_key,
          or_ips_ne "10.200.0.0/24" rests.quic.allowed_ips,
        ),
      )

  -- Where `RegisterPeerWith` fails, for any reason, the ids of the peer stay as they were.
  register_with-failed :
      (key : String) (ips : List String) (m : Manager jwt.Pub) (e : RegisterError r)
      → (register_peer_with jwt out r key ips m).0 ≡ err e
      → SameIds m (register_peer_with jwt out r key ips m).1
  unfolding register_peer_with
  register_with-failed key ips m e h =
      let req : Registration = record {
        public_key = key;
        allowed_ips = or_ips jwt out r "10.100.0.0/16" ips;
      } in
      elim (Bool-cases (r.is_blank key)) [
        | inl blank ↦ ground arith
        | inr some_key ↦ let kept = failed_keeps_ids req m e (ground arith) in ground arith
      ]
