-- ===== src/Configuration/Watcher.antt =====
-- pkg/config/config.go, `LoadConfig`, and pkg/config/watcher.go: how a change of the file reaches the
-- configuration in use and the callbacks.
use Prim.Native.String.{String}
use text.Mathlib.Text.{◌==◌ as str_eq}
use text.Mathlib.TextEquality.{eq_iff}
use cloudbridge_client.Prelude.{
  ℕ, zero, suc, ◌+◌, ◌≤◌, ◌<◌, ◌≡◌, ◌≢◌, refl, sym, ◌∙◌, ap, arith, ◌⊎◌, inl, inr, leb, Bool, true,
  false, Bool-cases, Option, none, some, Option-cases, List, [], ◌∷◌, ◌++◌, if◌then◌else◌,
}
use cloudbridge_client.Prelude.Int.{ℤ, eqb_ℤ, eqb_ℤ_iff}
use cloudbridge_client.Prelude.Time.{Time}
use cloudbridge_client.Configuration.{Config, Relay, Tls, Auth, WireGuard, validate_config}
use cloudbridge_client.Configuration.Environment.{substitute_env_var}
use cloudbridge_client.Configuration.Valid.{IsValid, validate_config_iff}
pub mod Reload

-- What lies outside: what the file and its defaults unmarshal to at a time, whether a file is missing
-- then, the environment, and the substitution in the fields that are not listed.
pub record Outside (Rest : Type 0) : Type 0 where
  pub read : Time → Option (Config Rest)
  pub missing : Time → String → Bool
  pub env : String → String
  pub in_rest : (String → String) → Rest → Rest

-- A value in `ConfigChange`; a secret is shown as redacted.
pub data Value : Type 0 where
  string : String → Value
  boolean : Bool → Value
  number : ℤ → Value

pub record ConfigChange : Type 0 where
  pub name : String
  pub old_value : Value
  pub new_value : Value

abbrev pub changed : Bool → String → Value → Value → List ConfigChange
changed true name old new = []
changed false name old new = record { name = name; old_value = old; new_value = new } ∷ []

abbrev pub same_flag : Bool → Bool → Bool
same_flag true b = b
same_flag false true = false
same_flag false false = true

module _ {Rest : Type 0} (o : Outside Rest) where
  -- `substituteEnvVars`.
  unfoldable pub substitute_env_vars : Config Rest → Config Rest
  substitute_env_vars c =
      let sub = substitute_env_var o.env in
      record c {
        relay = record c.relay {
          host = sub c.relay.host;
          tls = record c.relay.tls {
            ca_cert = sub c.relay.tls.ca_cert;
            client_cert = sub c.relay.tls.client_cert;
            client_key = sub c.relay.tls.client_key;
          };
        };
        auth = record c.auth {
          secret = sub c.auth.secret;
          issuer_url = sub c.auth.issuer_url;
          audience = sub c.auth.audience;
        };
        rest = o.in_rest sub c.rest;
      }

  -- `LoadConfig`; none stands for its errors.
  unfoldable pub load_config : Time → Option (Config Rest)
  load_config now = elim (o.read now) [
    | none ↦ none
    | some c ↦ elim (validate_config (o.missing now) (substitute_env_vars c)) [
      | some e ↦ none
      | none ↦ some (substitute_env_vars c)
    ]
  ]

  -- `detectChanges`: seven fields.
  unfoldable pub detect_changes : Config Rest → Config Rest → List ConfigChange
  detect_changes a b =
      changed (str_eq a.logging_level b.logging_level) "logging.level" (string a.logging_level)
        (string b.logging_level)
      ++ (changed (same_flag a.relay.tls.verify_cert b.relay.tls.verify_cert)
            "relay.tls.verify_cert" (boolean a.relay.tls.verify_cert)
            (boolean b.relay.tls.verify_cert)
          ++ (changed (same_flag a.relay.tls.enabled b.relay.tls.enabled) "relay.tls.enabled"
                (boolean a.relay.tls.enabled) (boolean b.relay.tls.enabled)
              ++ (changed (str_eq a.relay.host b.relay.host) "relay.host" (string a.relay.host)
                    (string b.relay.host)
                  ++ (changed (eqb_ℤ a.relay.port b.relay.port) "relay.port" (number a.relay.port)
                        (number b.relay.port)
                      ++ (changed (str_eq a.auth.secret b.auth.secret) "auth.secret"
                            (string "[REDACTED]") (string "[REDACTED]")
                          ++ (changed (str_eq a.api_base_url b.api_base_url) "api.base_url"
                              (string a.api_base_url) (string b.api_base_url)))))))

  -- A callback that was called: its number, and the two configurations.
  pub record Told : Type 0 where
    pub callback : ℕ
    pub old_config : Config Rest
    pub new_config : Config Rest

  -- `ConfigWatcher` once it is started. The callbacks are numbered from 0; the timer is the time at which
  -- it fires; `told` lists the calls of the callbacks, the first one first.
  pub record ConfigWatcher : Type 0 where
    pub current_config : Config Rest
    pub callbacks : ℕ
    pub debounce_timer : Option Time
    pub told : List Told

  -- `Start`.
  unfoldable pub start : Time → Option ConfigWatcher
  start now = elim (load_config now) [
    | none ↦ none
    | some c ↦ some (record { current_config = c; callbacks = 0; debounce_timer = none; told = [] })
  ]

  -- `AddCallback`.
  unfoldable pub add_callback : ConfigWatcher → ConfigWatcher
  add_callback w = record w { callbacks = w.callbacks + 1 }

  -- The loop over the callbacks; one that fails does not keep the next from being called.
  unfoldable pub call_all : ℕ → Config Rest → Config Rest → List Told
  call_all zero a b = []
  call_all (suc n) a b =
      call_all n a b ++ record { callback = n; old_config = a; new_config = b } ∷ []

  -- `reloadConfig`.
  unfoldable pub reload_config : Time → ConfigWatcher → ConfigWatcher
  reload_config now w = elim (load_config now) [
    | none ↦ w
    | some c ↦ elim (detect_changes w.current_config c) [
      | [] ↦ record w { current_config = c }
      | x ∷ xs ↦ record w {
        current_config = c;
        told = w.told ++ call_all w.callbacks w.current_config c;
      }
    ]
  ]

  -- `handleFileEvent` of an event of the configuration's file: the timer starts anew.
  unfoldable pub handle_file_event : Time → ConfigWatcher → ConfigWatcher
  handle_file_event now w = record w { debounce_timer = some (now + 500000000) }

  -- The timer, when it fires.
  unfoldable pub fire : Time → ConfigWatcher → ConfigWatcher
  fire at w = reload_config at (record w { debounce_timer = none })

  -- The timer fires if its time has come.
  unfoldable pub due : Time → ConfigWatcher → ConfigWatcher
  due now w = elim w.debounce_timer [ none ↦ w | some at ↦ if leb at now then fire at w else w ]

  -- Events of the file at the given times; the timer may fire before each.
  unfoldable pub events : List Time → ConfigWatcher → ConfigWatcher
  events [] w = w
  events (t ∷ ts) w = events ts (handle_file_event t (due t w))
