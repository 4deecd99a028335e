-- ===== src/Tests/Configurations.antt =====
-- pkg/config: a configuration, a value with a reference, bare, and a watcher whose file changes.
use Prim.Native.String
use Prim.Native.String.{String}
use Prim.Native.Char.{Char}
use cloudbridge_client.Prelude.{◌≡◌, ◌↔◌, refl, arith, true, false, none, some, [], ◌∷◌, ◌++◌}
use cloudbridge_client.Prelude.Int.{pos}
use cloudbridge_client.Configuration.{Config, validate_config}
use cloudbridge_client.Configuration.Valid.{IsValid, validate_config_iff}
use cloudbridge_client.Prelude.{inr}
use cloudbridge_client.Configuration.Environment.{lacks, substitute_env_var}
use cloudbridge_client.Configuration.Environment.Reference.{
  bare, reference, substitute_env_var-reference,
}
use cloudbridge_client.Configuration.Watcher.{Outside, ConfigWatcher, events}
use cloudbridge_client.Configuration.Watcher.Reload.{debounce_reloads_once}

abbrev config : String → Config (Unit {0})
config host = record {
  relay = record {
    host = host;
    port = pos 5550;
    tls = record {
      enabled = true;
      min_version = "1.3";
      verify_cert = true;
      ca_cert = "";
      client_cert = "";
      client_key = "";
    };
  };
  auth = record { kind = "jwt"; secret = "key"; issuer_url = ""; audience = "" };
  max_retries = pos 3;
  multiplier_positive = true;
  wireguard = record { enabled = true; interface_name = "wg-cloudbridge"; mtu = pos 1420 };
  logging_level = "info";
  api_base_url = "";
  rest = tt;
}

validate_config_iff_example :
    (validate_config (λ f. true) (config "relay") ≡ none) ↔ IsValid (λ f. true) (config "relay")
validate_config_iff_example = validate_config_iff (λ f. true) (config "relay")

abbrev env : String → String
env name = ""

abbrev letter : Char
letter = String.char_at "H" 0

substitute_env_var-reference_example :
    (substitute_env_var env
        (String.◌++◌ "a." (reference env (String.◌∷◌ letter "OST") "relay" ".b"))
      ≡ String.◌++◌ "a." (String.◌++◌ "relay" (substitute_env_var env ".b")))
    × (substitute_env_var env (String.◌++◌ "a." (bare env (String.◌∷◌ letter "OST") ".b"))
        ≡ String.◌++◌ "a." (String.◌++◌ "" (substitute_env_var env ".b")))
unfolding lacks
substitute_env_var-reference_example =
    substitute_env_var-reference env "a." letter "OST" "relay" ".b" "relay" "" refl refl refl refl
      (inr (refl, refl)) (inr (refl, refl))

-- The host in the file is another one than the one in use.
abbrev outside : Outside (Unit {0})
outside = record {
  read = λ now. some (config "new");
  missing = λ now f. false;
  env = env;
  in_rest = λ sub r. r;
}

abbrev watcher : ConfigWatcher outside
watcher = record { current_config = config "old"; callbacks = 2; debounce_timer = none; told = [] }

debounce_reloads_once_example :
    events outside (7 ∷ 8 ∷ 9 ∷ []) watcher ≡ record watcher { debounce_timer = some 500000009 }
debounce_reloads_once_example =
    debounce_reloads_once outside 7 (8 ∷ 9 ∷ []) watcher refl (omega arith, (omega arith, tt))
