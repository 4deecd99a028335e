-- ===== src/Auth/Header.antt =====
-- pkg/auth/auth.go: `GetTokenFromHeader`, with `strings.Split` at the spaces, and `CreateAuthMessage`.
use Prim.Native.String
use Prim.Native.String.{String}
use Prim.Native.Char.{Char, code}
use text.Mathlib.Text.{◌==◌ as str_eq}
use text.Mathlib.TextLemmas.{nil-append, cons-append, append_assoc, nil≢cons}
use text.Mathlib.TextEquality.{eq_iff, Char-path}
use cloudbridge_client.Prelude.{
  ◌≡◌, refl, sym, ◌∙◌, ap, arith, inl, inr, ◌↔◌, ◌==◌, ==_iff, Bool, true, false, List, [], ◌∷◌,
  Result, ok, err, if◌then◌else◌, Bool-cases,
}
use cloudbridge_client.Auth.{Error, empty_header, bad_header, JwtLib, AuthManager}
use cloudbridge_client.Auth.Keys.{Outside}
use cloudbridge_client.Auth.Validate.{validate_token}
use cloudbridge_client.Auth.Extract.{extract_subject}

abbrev push_front : Char → List String → List String
push_front c [] = (String.◌∷◌ c String.[]) ∷ []
push_front c (p ∷ ps) = (String.◌∷◌ c p) ∷ ps

-- `strings.Split(s, " ")`
unfoldable pub split_spaces : String → List String
split_spaces String.[] = "" ∷ []
split_spaces (String.◌∷◌ c s) =
    let rest = split_spaces s in if code c == b' ' then "" ∷ rest else push_front c rest

-- `len(parts) != 2 || parts[0] != "Bearer"`
unfoldable pub bearer_token : List String → Result Error String
bearer_token (scheme ∷ tok ∷ []) = if str_eq scheme "Bearer" then ok tok else err bad_header
bearer_token _ = err bad_header

-- `GetTokenFromHeader`.
unfoldable pub get_token_from_header : String → Result Error String
get_token_from_header header =
    if str_eq header "" then err empty_header else bearer_token (split_spaces header)

-- `CreateAuthMessage`: the string itself and the subject, of a token that validates.
unfoldable pub create_auth_message :
    (jwt : JwtLib)
    → Outside jwt.Pub
    → String
    → AuthManager jwt.Pub
    → Result Error (String × String) × AuthManager jwt.Pub
create_auth_message jwt out s am =
    let (r, am') = validate_token jwt out s am in
    (
      elim r [
        | err e ↦ err e
        | ok t ↦ elim (extract_subject t) [ err e ↦ err e | ok subject ↦ ok (s, subject) ]
      ],
      am',
    )

unfoldable pub has_space : String → Bool
has_space String.[] = false
has_space (String.◌∷◌ c s) = if code c == b' ' then true else has_space s

split_plain : (s : String) → has_space s ≡ false → split_spaces s ≡ s ∷ []
unfolding split_spaces has_space
split_plain String.[] h = refl
split_plain (String.◌∷◌ c s) h = ground (arith, split_plain s)

split_ne : (s : String) → (p : String) × (ps : List String) × (split_spaces s ≡ p ∷ ps)
unfolding split_spaces
split_ne String.[] = ("", [], refl)
split_ne (String.◌∷◌ c s) = elim (Bool-cases (code c == b' ')) [
  | inl blank ↦ ("", split_spaces s, rw blank refl)
  | inr plain ↦ let (p, ps, e) = split_ne s in (String.◌∷◌ c p, ps, rw (plain, e) refl)
]

abbrev space : Char
space = String.char_at " " 0

is_space : (c : Char) → (code c == b' ') ≡ true → c ≡ space
is_space c h = Char-path c space ((==_iff (code c) b' ').0 h)

space-append : (q : String) → String.◌++◌ " " q ≡ String.◌∷◌ space q
space-append q = cons-append space "" q ∙ ap (String.◌∷◌ space) (nil-append q)

split-append :
    (p q : String)
    → has_space p ≡ false
    → split_spaces (String.◌++◌ p (String.◌++◌ " " q)) ≡ p ∷ split_spaces q
unfolding split_spaces has_space
split-append String.[] q h = rw (nil-append (String.◌++◌ " " q), space-append q) refl
split-append (String.◌∷◌ c p) q h =
    let plain : (code c == b' ') ≡ false = ground arith in
    let rest = split-append p q (ground arith) in
    rw (cons-append c p (String.◌++◌ " " q), plain, rest) refl

-- What a split into one part, and one into two, comes from.
split_one : (s q : String) → split_spaces s ≡ q ∷ [] → (s ≡ q) × (has_space q ≡ false)
unfolding split_spaces has_space
split_one String.[] q h = let e : "" ≡ q = ground arith in rw (← e) (refl, refl)
split_one (String.◌∷◌ c s) q h = let (p, ps, e) = split_ne s in ground (arith, e, split_one s p)

split_two :
    (s p q : String)
    → split_spaces s ≡ p ∷ q ∷ []
    → (s ≡ String.◌++◌ p (String.◌++◌ " " q)) × (has_space q ≡ false)
unfolding split_spaces
split_two String.[] p q h = absurd (ground arith)
split_two (String.◌∷◌ c s) p q h = elim (Bool-cases (code c == b' ')) [
  | inl blank ↦
      let first : p ≡ "" = ground arith in
      let rest : split_spaces s ≡ q ∷ [] = ground arith in
      let (same, plain) = split_one s q rest in
      (
        rw (first, nil-append (String.◌++◌ " " q), space-append q, is_space c blank, same) refl,
        plain,
      )
  | inr other ↦
      let (p', ps, e) = split_ne s in
      let first : p ≡ String.◌∷◌ c p' = ground (arith, e) in
      let rest : split_spaces s ≡ p' ∷ q ∷ [] = ground (arith, e) in
      let (same, plain) = split_two s p' q rest in
      (rw (first, cons-append c p' (String.◌++◌ " " q)) (ap (String.◌∷◌ c) same), plain)
]

two_parts :
    (parts : List String) (tok : String) → bearer_token parts ≡ ok tok → parts ≡ "Bearer" ∷ tok ∷ []
unfolding bearer_token
two_parts [] tok h = absurd (ground arith)
two_parts (p ∷ []) tok h = absurd (ground arith)
two_parts (p ∷ q ∷ []) tok h = ground (arith, eq_iff p "Bearer")
two_parts (p ∷ q ∷ r ∷ ps) tok h = absurd (ground arith)

not_empty : (tok : String) → String.◌++◌ "Bearer " tok ≡ "" → ⊥
not_empty tok e = nil≢cons (sym e ∙ cons-append (String.char_at "B" 0) "earer " tok)

-- A header gives a token exactly if it is the word Bearer, one space, and the token, which has no
-- space in it.
pub header_token_iff :
    (header tok : String)
    → (get_token_from_header header ≡ ok tok)
      ↔ ((header ≡ String.◌++◌ "Bearer " tok) × (has_space tok ≡ false))
unfolding get_token_from_header bearer_token split_spaces has_space
header_token_iff header tok = (
  λ h.
      let (p, ps, e) = split_ne header in
      elim (Bool-cases (str_eq header "")) [
        | inl empty ↦ absurd (ground arith)
        | inr there ↦
            let read : bearer_token (split_spaces header) ≡ ok tok = ground arith in
            let parts : split_spaces header ≡ "Bearer" ∷ tok ∷ [] =
              two_parts (split_spaces header) tok read in
            let (same, plain) = split_two header "Bearer" tok parts in
            (same ∙ sym (append_assoc "Bearer" " " tok), plain)
      ],
  λ (same, plain).
      let parts : split_spaces header ≡ "Bearer" ∷ tok ∷ [] =
        ap split_spaces (same ∙ append_assoc "Bearer" " " tok)
        ∙ split-append "Bearer" tok refl
        ∙ ap (◌∷◌ "Bearer") (split_plain tok plain) in
      let there : str_eq header "" ≡ false = elim (Bool-cases (str_eq header "")) [
        | inl empty ↦ absurd (not_empty tok (sym same ∙ (eq_iff header "").0 empty))
        | inr there' ↦ there'
      ] in
      rw (there, parts) refl,
)
