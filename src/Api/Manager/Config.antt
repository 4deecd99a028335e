-- ===== src/Api/Manager/Config.antt =====
-- pkg/api/manager.go: `validateManagerConfig`.
use Prim.Native.String.{String}
use text.Mathlib.Text.{◌==◌ as str_eq}
use text.Mathlib.TextEquality.{eq_iff}
use cloudbridge_client.Prelude.{
  ◌≡◌, ◌≢◌, ◌↔◌, arith, Bool, true, not, Option, none, some, if◌then◌else◌,
}
use cloudbridge_client.Prelude.Int.{ℤ, pos, ltb_ℤ, leb_ℤ, ◌<ℤ◌, ◌≤ℤ◌}
use cloudbridge_client.Prelude.Time.{Duration}

-- The fields of `ManagerConfig` that are checked; a float64 by whether it is above 0.
pub record ManagerConfig : Type 0 where
  pub base_url : String
  pub tenant_id : String
  pub timeout : Duration
  pub max_retries : ℤ
  pub multiplier_positive : Bool
  pub max_backoff : Duration

pub data ConfigError : Type 0 where
  no_base_url no_tenant : ConfigError
  bad_timeout : Duration → ConfigError
  bad_retries : ℤ → ConfigError
  bad_multiplier : ConfigError
  bad_max_backoff : Duration → ConfigError

-- `validateManagerConfig`.
unfoldable pub validate_manager_config : ManagerConfig → Option ConfigError
validate_manager_config c =
    if str_eq c.base_url ""
    then some no_base_url
    else if str_eq c.tenant_id ""
    then some no_tenant
    else if leb_ℤ c.timeout (pos 0)
    then some (bad_timeout c.timeout)
    else if ltb_ℤ c.max_retries (pos 0)
    then some (bad_retries c.max_retries)
    else if not c.multiplier_positive
    then some bad_multiplier
    else if leb_ℤ c.max_backoff (pos 0)
    then some (bad_max_backoff c.max_backoff)
    else none

-- A configuration passes exactly when it has a base URL and a tenant, its timeout, multiplier and
-- longest backoff are above 0, and its number of retries is not below 0.
manager_config_iff :
    (c : ManagerConfig)
    → (validate_manager_config c ≡ none) ↔ (
        (c.base_url ≢ "")
        × (c.tenant_id ≢ "")
        × (pos 0 <ℤ c.timeout)
        × (pos 0 ≤ℤ c.max_retries)
        × (c.multiplier_positive ≡ true)
        × (pos 0 <ℤ c.max_backoff))
unfolding validate_manager_config
manager_config_iff c = ground (arith, eq_iff c.base_url "", eq_iff c.tenant_id "")
