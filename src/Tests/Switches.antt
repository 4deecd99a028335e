-- ===== src/Tests/Switches.antt =====
-- pkg/relay/autoswitch.go and pkg/handover: a switch to WireGuard and back, tokens, and a decision.

use cloudbridge_client.Prelude.{
  ℕ, ◌≡◌, ◌≤◌, refl, ◌↔◌, false, true, Option, none, some, List, [], ◌∷◌, ◌++◌,
}
use cloudbridge_client.Prelude.Int.{pos}
use cloudbridge_client.Prelude.Time.{seconds}
use cloudbridge_client.RelaySwitch.{wireguard, new_auto_switch}
use cloudbridge_client.RelaySwitch.Replay.{
  Op, starts, adds_callback, checks, forces, after_all, IsFollowed, after_all-IsFollowed,
}
use cloudbridge_client.RelayErrors.Contains.{Bytes}
use cloudbridge_client.Handover.{Token, Crypto, Manager, validate_token, rotate_secret_key}
use cloudbridge_client.Handover.Tokens.{signature, rotate_unbumped}

abbrev ops : List Op
ops =
    starts true true
    ∷ adds_callback
    ∷ checks false false
    ∷ checks false true
    ∷ adds_callback
    ∷ checks true true
    ∷ forces wireguard true
    ∷ []

after_all-IsFollowed_example : IsFollowed (after_all ops new_auto_switch)
after_all-IsFollowed_example = after_all-IsFollowed ops

-- An encoding that keeps the epoch, and a keyed mark in front of the data.
abbrev crypto : Crypto
crypto = record { marshal = λ p. some (p.epoch ∷ []); hmac = λ key d. key ++ d }

abbrev token_of : ℕ → Bytes → Token
token_of epoch mac = record {
  conn_id = "conn";
  epoch = epoch;
  expires_at = 300;
  mac = mac;
  server_id = "server";
  tenant_id = "tenant";
}

abbrev manager_with : Option Token → Manager
manager_with t = record {
  token = t;
  penalty = seconds 15;
  last_switch = 0;
  secret_key = 1 ∷ 2 ∷ [];
  token_ttl = pos 200;
  min_interval = seconds 10;
}

abbrev good : Token
good = token_of 7 (1 ∷ 2 ∷ 7 ∷ [])

rotate_unbumped_example :
    ((rotate_secret_key crypto (9 ∷ []) false (manager_with (some good))).token ≡ some good)
    × ((validate_token crypto 299 good
            (rotate_secret_key crypto (9 ∷ []) false (manager_with (some good)))
          ≡ none)
        ↔ ((299 ≤ 300) × (signature crypto (9 ∷ []) good ≡ some (1 ∷ 2 ∷ 7 ∷ []))))
rotate_unbumped_example = rotate_unbumped crypto (9 ∷ []) 299 good (manager_with (some good)) refl
