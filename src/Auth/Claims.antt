-- ===== src/Auth/Claims.antt =====
-- pkg/auth/auth.go: reading claims, as the type assertions on decoded JSON do.
use Prim.Native.String.{String}
use text.Mathlib.Text.{◌==◌ as str_eq, starts_with}
use cloudbridge_client.Prelude.{Bool, false, ◌||◌, Option, none, some, List, [], ◌∷◌, if◌then◌else◌}
use cloudbridge_client.Prelude.Int.{ℤ}
use cloudbridge_client.Auth.{
  Json, boolean, number, string, array, object, Jsons, end, item, Fields, empty, field, OidcConfig,
  ClaimsError, wrong_claims_type, no_audience, invalid_issuer, invalid_audience,
}

-- `m[key]`, and whether it is there.
unfoldable pub get : String → Fields → Option Json
get k empty = none
get k (field j v fs) = if str_eq j k then some v else get k fs

-- `v.(string)`, `v.(bool)`, `int(v.(float64))`, `v.([]interface{})`, `v.(map[string]interface{})`.
abbrev pub as_text : Option Json → Option String
as_text (some (string s)) = some s
as_text _ = none

abbrev pub as_bool : Option Json → Option Bool
as_bool (some (boolean b)) = some b
as_bool _ = none

abbrev pub as_int : Option Json → Option ℤ
as_int (some (number n)) = some n
as_int _ = none

abbrev pub as_array : Option Json → Option Jsons
as_array (some (array vs)) = some vs
as_array _ = none

abbrev pub as_object : Option Json → Option Fields
as_object (some (object fs)) = some fs
as_object _ = none

-- The loop that keeps the strings of an array.
unfoldable pub texts : Jsons → List String
texts end = []
texts (item (string s) vs) = s ∷ texts vs
texts (item _ vs) = texts vs

-- Whether one of them is the given one.
unfoldable pub has_text : String → Jsons → Bool
has_text want end = false
has_text want (item (string s) vs) = str_eq s want || has_text want vs
has_text want (item _ vs) = has_text want vs

-- The check of `aud` in `validateOIDCClaims`: a string, or an array that has the wanted one; a value of
-- any other type passes.
unfoldable pub check_audience : String → Option Json → Option ClaimsError
check_audience want (some (string v)) = if str_eq v want then none else some (invalid_audience v)
check_audience want (some (array vs)) = if has_text want vs then none else some no_audience
check_audience want _ = none

-- The check of `iss`: a string has the configured issuer as a prefix; any other value passes.
unfoldable pub check_issuer : String → Option Json → Option ClaimsError
check_issuer url (some (string iss)) =
    if starts_with iss url then none else some (invalid_issuer iss)
check_issuer url _ = none

-- `validateOIDCClaims`.
unfoldable pub validate_oidc_claims : OidcConfig → Option Fields → Option ClaimsError
validate_oidc_claims c none = some wrong_claims_type
validate_oidc_claims c (some claims) = elim (check_issuer c.issuer_url (get "iss" claims)) [
  | some e ↦ some e
  | none ↦ check_audience c.audience (get "aud" claims)
]
