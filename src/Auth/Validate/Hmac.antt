-- ===== src/Auth/Validate/Hmac.antt =====
-- pkg/auth/auth.go: what an accepted HMAC token was signed with.
use Prim.Native.String.{String}
use cloudbridge_client.Prelude.{
  ◌≡◌, refl, ◌∙◌, ap, arith, ◌⊎◌, inl, inr, true, false, some, List, [], ◌∷◌, ok, Bool-cases,
  Option-cases,
}
use cloudbridge_client.RelayErrors.Contains.{Bytes}
use cloudbridge_client.Auth.{Token, Key, secret, JwtLib, AuthConfig}
use cloudbridge_client.Auth.Keys.{Outside}
use cloudbridge_client.Auth.Validate.{
  secret_candidates, wants_fallback, or_primary, candidates, hmac_key, try_candidates,
  validate_jwt_token,
}

-- A key is one of the list.
abbrev pub OneOf : Bytes → List Bytes → Type 0
OneOf k [] = ⊥
OneOf k (x ∷ xs) = (k ≡ x) ⊎ OneOf k xs

module _ (jwt : JwtLib) (out : Outside jwt.Pub) where
  -- A token that one of the keys accepted.
  pub record AcceptedBy (s : String) (keys : List Bytes) (t : Token) : Type 0 where
    pub key : Bytes
    pub listed : OneOf key keys
    pub signed : jwt.Signed (secret key) s
    pub hmac : t.is_hmac ≡ true
    pub valid : t.valid ≡ true

  AcceptedBy-more :
      {s : String} {key : Bytes} {keys : List Bytes} {t : Token}
      → AcceptedBy s keys t
      → AcceptedBy s (key ∷ keys) t
  AcceptedBy-more a = record {
    key = a.key;
    listed = inr a.listed;
    signed = a.signed;
    hmac = a.hmac;
    valid = a.valid;
  }

  hmac_key_only :
      (key : Bytes) (t : Token) {k : Key jwt.Pub}
      → (hmac_key jwt out key t tt).0 ≡ some k
      → (k ≡ secret key) × (t.is_hmac ≡ true)
  hmac_key_only key t h = ground arith

  first_accepted :
      (s : String) (key : Bytes) (keys : List Bytes) (t : Token)
      → (jwt.parse s (hmac_key jwt out key) tt).0 ≡ some t
      → AcceptedBy s (key ∷ keys) t
  first_accepted s key keys t h =
      let (u, k, given, sig, same, state) = jwt.parse_signed s (hmac_key jwt out key) tt t h in
      let (is_key, hmac) = hmac_key_only key u given in
      record {
        key = key;
        listed = inl refl;
        signed = rw (← is_key) sig;
        hmac = rw same hmac;
        valid = rw same refl;
      }

  try_candidates_accepted :
      (s : String) (keys : List Bytes) (t : Token)
      → try_candidates jwt out s keys ≡ some t
      → AcceptedBy s keys t
  unfolding try_candidates
  try_candidates_accepted s [] t h = absurd (ground arith)
  try_candidates_accepted s (key ∷ keys) t h =
      elim (Option-cases (jwt.parse s (hmac_key jwt out key) tt).0) [
        | inl bad ↦ AcceptedBy-more (try_candidates_accepted s keys t (ground arith))
        | inr (u, good) ↦ elim (Bool-cases u.valid) [
          | inl v ↦ let e : u ≡ t = ground arith in first_accepted s key keys t (good ∙ ap some e)
          | inr n ↦ AcceptedBy-more (try_candidates_accepted s keys t (ground arith))
        ]
      ]

  primary_or :
      (ks primary : List Bytes) (k : Bytes)
      → OneOf k (or_primary jwt out ks primary)
      → OneOf k ks ⊎ OneOf k primary
  primary_or [] primary k h = inr h
  primary_or (x ∷ ks) primary k h = inl h

  which_secret :
      (c : AuthConfig) (s : String) (k : Bytes)
      → OneOf k (candidates jwt out c s)
      → (OneOf k (secret_candidates jwt out c.fallback_secret)
          × (wants_fallback jwt out c s ≡ true))
        ⊎ OneOf k (secret_candidates jwt out c.secret)
  unfolding candidates
  which_secret c s k h = elim (Bool-cases (wants_fallback jwt out c s)) [
    | inl yes' ↦
        elim (primary_or (secret_candidates jwt out c.fallback_secret)
          (secret_candidates jwt out c.secret) k (rw yes' at h)) [
            | inl f ↦ inl (f, yes')
            | inr p ↦ inr p
          ]
    | inr no' ↦ inr (rw no' at h)
  ]

  -- Without the mode that skips validation, an accepted token is signed, by one of the HMAC methods,
  -- with a form of the configured secret or, if its header names the fallback key, of the fallback
  -- secret; and it is valid.
  pub jwt_token_signed :
      (c : AuthConfig) (s : String) (t : Token)
      → c.skip_validation ≡ false
      → validate_jwt_token jwt out c s ≡ ok t
      → (t.is_hmac ≡ true)
        × (t.valid ≡ true)
        × ((k : Bytes) × jwt.Signed (secret k) s
            × ((OneOf k (secret_candidates jwt out c.fallback_secret)
                  × (wants_fallback jwt out c s ≡ true))
                ⊎ OneOf k (secret_candidates jwt out c.secret)))
  unfolding validate_jwt_token
  jwt_token_signed c s t strict h =
      let a = try_candidates_accepted s (candidates jwt out c s) t (ground arith) in
      (a.hmac, a.valid, (a.key, a.signed, which_secret c s a.key a.listed))

  -- In that mode every token that parses is handed back marked as not valid.
  skipped_not_valid :
      (c : AuthConfig) (s : String) (t : Token)
      → c.skip_validation ≡ true
      → validate_jwt_token jwt out c s ≡ ok t
      → t.valid ≡ false
  unfolding validate_jwt_token
  skipped_not_valid c s t skip h = ground arith
