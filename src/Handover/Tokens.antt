-- ===== src/Handover/Tokens.antt =====
-- pkg/handover/manager.go: which tokens are accepted, and what a rotation of the key does to them.
use Prim.Native.String.{String}
use cloudbridge_client.Prelude.{
  ℕ, ◌+◌, ◌%◌, ◌^◌, ◌≤◌, ◌≡◌, arith, true, false, Option, none, some, [], ok, ◌↔◌, Option-cases,
  inl, inr,
}
use cloudbridge_client.Prelude.Time.{Time}
use cloudbridge_client.RelayErrors.Contains.{Bytes, same_iff}
use cloudbridge_client.Handover.{
  Token, Crypto, Manager, make_payload, sign_token, verify_token, create_token, validate_token,
  resign, rotate_secret_key, add_duration,
}

module _ (cr : Crypto) where
  -- The signature that a token ought to carry.
  abbrev pub signature : Bytes → Token → Option Bytes
  signature key t = elim (cr.marshal (make_payload t)) [
    | none ↦ none
    | some d ↦ some (cr.hmac key d)
  ]

  verify_iff :
      (key : Bytes) (t : Token) → (verify_token cr key t ≡ true) ↔ (signature key t ≡ some t.mac)
  unfolding verify_token
  verify_iff key t = elim (Option-cases (cr.marshal (make_payload t))) [
    | inl none' ↦ ground arith
    | inr (d, some') ↦ ground (arith, same_iff t.mac (cr.hmac key d))
  ]

  -- A token is accepted exactly if it has not expired and carries the signature of all its other
  -- fields under the manager's key.
  validate_token_iff :
      (now : Time) (t : Token) (hm : Manager)
      → (validate_token cr now t hm ≡ none)
        ↔ ((now ≤ t.expires_at) × (signature hm.secret_key t ≡ some t.mac))
  unfolding validate_token
  validate_token_iff now t hm = ground (arith, verify_iff hm.secret_key t)

  signed-verifies :
      (key : Bytes) (t s : Token) → sign_token cr key t ≡ some s → verify_token cr key s ≡ true
  unfolding sign_token verify_token make_payload
  signed-verifies key t s h = elim (Option-cases (cr.marshal (make_payload t))) [
    | inl none' ↦ ground arith
    | inr (d, some') ↦ ground (arith, same_iff (cr.hmac key d) (cr.hmac key d))
  ]

  created :
      (random : Option ℕ) (now : Time) (conn server tenant : String) (hm hm' : Manager) (t : Token)
      → create_token cr random now conn server tenant hm ≡ (hm', ok t)
      → (verify_token cr hm.secret_key t ≡ true)
        × (hm'.secret_key ≡ hm.secret_key)
        × (hm'.token ≡ some t)
  unfolding create_token
  created none now conn server tenant hm hm' t h = ground arith
  created (some epoch) now conn server tenant hm hm' t h =
      let unsigned : Token = record {
        conn_id = conn;
        epoch = epoch;
        expires_at = add_duration now hm.token_ttl;
        mac = [];
        server_id = server;
        tenant_id = tenant;
      } in
      ground (arith, signed-verifies hm.secret_key unsigned t)

  -- A token that the manager creates is stored, and the manager accepts it until it expires.
  create-validate :
      (random : Option ℕ) (now later : Time) (conn server tenant : String) (hm hm' : Manager)
      (t : Token)
      → create_token cr random now conn server tenant hm ≡ (hm', ok t)
      → later ≤ t.expires_at
      → (hm'.token ≡ some t) × (validate_token cr later t hm' ≡ none)
  unfolding validate_token
  create-validate random now later conn server tenant hm hm' t h l =
      ground (arith, created random now conn server tenant hm hm' t h)

  -- A rotation that bumps the epoch of the stored token and can sign it leaves a stored token with the
  -- next epoch that the new key accepts until it expires, the old token's expiry.
  rotate_bumped :
      (key : Bytes) (later : Time) (t s : Token) (hm : Manager)
      → hm.token ≡ some t
      → sign_token cr key (record t { epoch = (t.epoch + 1) % 2 ^ 64 }) ≡ some s
      → later ≤ t.expires_at
      → ((rotate_secret_key cr key true hm).token ≡ some s)
        × (s.epoch ≡ (t.epoch + 1) % 2 ^ 64)
        × (validate_token cr later s (rotate_secret_key cr key true hm) ≡ none)
  unfolding rotate_secret_key validate_token resign sign_token
  rotate_bumped key later t s hm stored signed l =
      ground (arith, signed-verifies key (record t { epoch = (t.epoch + 1) % 2 ^ 64 }) s)

  -- A rotation without a bump keeps the stored token as it is, which is accepted afterwards exactly if
  -- it has not expired and its signature under the new key is the one that it carries.
  pub rotate_unbumped :
      (key : Bytes) (later : Time) (t : Token) (hm : Manager)
      → hm.token ≡ some t
      → ((rotate_secret_key cr key false hm).token ≡ some t)
        × ((validate_token cr later t (rotate_secret_key cr key false hm) ≡ none)
            ↔ ((later ≤ t.expires_at) × (signature key t ≡ some t.mac)))
  unfolding rotate_secret_key
  rotate_unbumped key later t hm stored =
      (stored, validate_token_iff later t (rotate_secret_key cr key false hm))
