-- ===== src/Configuration/Environment.antt =====
-- pkg/config/config.go: `substituteEnvVar`, whose pattern `\$\{([^}:]+)(?::([^}]*))?\}` is scanned from
-- the left. A name ends at its first `}` or `:` and a default at its first `}`, so one pass decides:
-- where a string ends inside a match, no later match is left.
use Prim.Native.String
use Prim.Native.String.{String}
use Prim.Native.Char.{Char, code}
use text.Mathlib.Text.{◌==◌ as str_eq}
use text.Mathlib.TextLemmas.{nil-append, cons-append, append_assoc, append-nil}
use text.Mathlib.TextEquality.{eq_iff}
use cloudbridge_client.Prelude.{
  ℕ, ◌⊎◌, inl, inr, ◌≢◌, Bool-cases, ◌≡◌, refl, sym, ◌∙◌, ap, arith, ◌==◌, Bool, true, false, ◌&&◌,
  ◌||◌, not, if◌then◌else◌,
}
pub mod Reference

-- What has been read of a match.
pub data Scan : Type 0 where
  plain dollar opened : Scan
  named : String → Scan
  defaulted : String → String → Scan

abbrev pub one : Char → String
one c = String.◌∷◌ c ""

-- `envValue`, or the default where it is empty.
unfoldable pub value_of : (String → String) → String → String → String
value_of env name default = if str_eq (env name) "" then default else env name

-- One character: what is put out, and what has been read of a match after it.
unfoldable pub step : (String → String) → Scan → Char → String × Scan
step env plain c = if code c == b'$' then ("", dollar) else (one c, plain)
step env dollar c =
    if code c == b'$'
    then ("$", dollar)
    else if code c == b'{'
    then ("", opened)
    else (String.◌++◌ "$" (one c), plain)
step env opened c =
    if code c == b'}' || code c == b':'
    then (String.◌++◌ "${" (one c), plain)
    else ("", named (one c))
step env (named n) c =
    if code c == b'}'
    then (value_of env n "", plain)
    else if code c == b':'
    then ("", defaulted n "")
    else ("", named (String.◌++◌ n (one c)))
step env (defaulted n d) c =
    if code c == b'}' then (value_of env n d, plain) else ("", defaulted n (String.◌++◌ d (one c)))

-- The text of a match that the end of the string cuts off.
abbrev pub left : Scan → String
left plain = ""
left dollar = "$"
left opened = "${"
left (named n) = String.◌++◌ "${" n
left (defaulted n d) = String.◌++◌ "${" (String.◌++◌ n (String.◌++◌ ":" d))

unfoldable pub scan : (String → String) → Scan → String → String
scan env st String.[] = left st
scan env st (String.◌∷◌ c s) = String.◌++◌ (step env st c).0 (scan env (step env st c).1 s)

-- `substituteEnvVar`.
unfoldable pub substitute_env_var : (String → String) → String → String
substitute_env_var env value = scan env plain value

-- Whether no character of a string has the code.
unfoldable pub lacks : ℕ → String → Bool
lacks b String.[] = true
lacks b (String.◌∷◌ c s) = not (code c == b) && lacks b s
