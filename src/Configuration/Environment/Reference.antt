-- ===== src/Configuration/Environment/Reference.antt =====
-- pkg/config/config.go: what `substituteEnvVar` makes of a reference, and of a value without one.
use Prim.Native.String
use Prim.Native.String.{String}
use Prim.Native.Char.{Char, code}
use text.Mathlib.Text.{◌==◌ as str_eq}
use text.Mathlib.TextLemmas.{nil-append, cons-append, append_assoc, append-nil}
use text.Mathlib.TextEquality.{eq_iff}
use cloudbridge_client.Prelude.{
  ◌⊎◌, inl, inr, ◌≢◌, Bool-cases, ◌≡◌, refl, sym, ◌∙◌, ap, arith, ◌==◌, true, false,
}
use cloudbridge_client.Configuration.Environment.{
  plain, opened, named, defaulted, one, value_of, step, scan, substitute_env_var, lacks,
}

one-append : (c : Char) (s : String) → String.◌++◌ (one c) s ≡ String.◌∷◌ c s
one-append c s = cons-append c "" s ∙ ap (String.◌∷◌ c) (nil-append s)

snoc-append :
    (n : String) (c : Char) (m : String)
    → String.◌++◌ (String.◌++◌ n (one c)) m ≡ String.◌++◌ n (String.◌∷◌ c m)
snoc-append n c m = append_assoc n (one c) m ∙ ap (String.◌++◌ n) (one-append c m)

module _ (env : String → String) where
  scan-plain :
      (p q : String)
      → lacks b'$' p ≡ true
      → scan env plain (String.◌++◌ p q) ≡ String.◌++◌ p (scan env plain q)
  unfolding scan step lacks
  scan-plain String.[] q h = rw (nil-append q) (sym (nil-append (scan env plain q)))
  scan-plain (String.◌∷◌ c p) q h =
      let first : (code c == b'$') ≡ false = ground arith in
      let rest = scan-plain p q (ground arith) in
      rw (cons-append c p q, first)
        (ap (String.◌++◌ (one c)) rest
          ∙ one-append c (String.◌++◌ p (scan env plain q))
          ∙ sym (cons-append c p (scan env plain q)))

  scan-named :
      (n m q : String)
      → lacks b'}' m ≡ true
      → lacks b':' m ≡ true
      → scan env (named n) (String.◌++◌ m q) ≡ scan env (named (String.◌++◌ n m)) q
  unfolding scan step lacks
  scan-named n String.[] q h k = rw (nil-append q, append-nil n) refl
  scan-named n (String.◌∷◌ c m) q h k =
      let close : (code c == b'}') ≡ false = ground arith in
      let colon : (code c == b':') ≡ false = ground arith in
      let rest = scan-named (String.◌++◌ n (one c)) m q (ground arith) (ground arith) in
      rw (cons-append c m q, close, colon)
        (nil-append (scan env (named (String.◌++◌ n (one c))) (String.◌++◌ m q))
          ∙ rest
          ∙ ap (λ x. scan env (named x) q) (snoc-append n c m))

  scan-defaulted :
      (n d m q : String)
      → lacks b'}' m ≡ true
      → scan env (defaulted n d) (String.◌++◌ m q) ≡ scan env (defaulted n (String.◌++◌ d m)) q
  unfolding scan step lacks
  scan-defaulted n d String.[] q h = rw (nil-append q, append-nil d) refl
  scan-defaulted n d (String.◌∷◌ c m) q h =
      let close : (code c == b'}') ≡ false = ground arith in
      let rest = scan-defaulted n (String.◌++◌ d (one c)) m q (ground arith) in
      rw (cons-append c m q, close)
        (nil-append (scan env (defaulted n (String.◌++◌ d (one c))) (String.◌++◌ m q))
          ∙ rest
          ∙ ap (λ x. scan env (defaulted n x) q) (snoc-append d c m))

  -- A reference with its name and default, before the rest of a string.
  abbrev pub reference : String → String → String → String
  reference name default q =
      String.◌++◌ "${"
        (String.◌++◌ name (String.◌++◌ ":" (String.◌++◌ default (String.◌++◌ "}" q))))

  scan_open : (r : String) → scan env plain (String.◌++◌ "${" r) ≡ scan env opened r
  unfolding scan step
  scan_open r =
      rw
        (
          cons-append (String.char_at "$" 0) "{" r,
          cons-append (String.char_at "{" 0) "" r,
          nil-append r,
        )
        (nil-append (String.◌++◌ "" (scan env opened r)) ∙ nil-append (scan env opened r))

  scan_colon : (n r : String) → scan env (named n) (String.◌++◌ ":" r) ≡ scan env (defaulted n "") r
  unfolding scan step
  scan_colon n r =
      rw (cons-append (String.char_at ":" 0) "" r, nil-append r)
        (nil-append (scan env (defaulted n "") r))

  scan_close :
      (n d r : String)
      → scan env (defaulted n d) (String.◌++◌ "}" r)
        ≡ String.◌++◌ (value_of env n d) (scan env plain r)
  unfolding scan step
  scan_close n d r = rw (cons-append (String.char_at "}" 0) "" r, nil-append r) refl

  scan_first :
      (c : Char) (n r : String)
      → (code c == b'}') ≡ false
      → (code c == b':') ≡ false
      → scan env opened (String.◌++◌ (String.◌∷◌ c n) r)
        ≡ scan env (named (one c)) (String.◌++◌ n r)
  unfolding scan step
  scan_first c n r close colon =
      rw (cons-append c n r, close, colon) (nil-append (scan env (named (one c)) (String.◌++◌ n r)))

  scan-reference :
      (c : Char) (n d q : String)
      → (code c == b'}') ≡ false
      → (code c == b':') ≡ false
      → lacks b'}' n ≡ true
      → lacks b':' n ≡ true
      → lacks b'}' d ≡ true
      → scan env plain (reference (String.◌∷◌ c n) d q)
        ≡ String.◌++◌ (value_of env (String.◌∷◌ c n) d) (scan env plain q)
  scan-reference c n d q close colon n_close n_colon d_close =
      let tail = String.◌++◌ ":" (String.◌++◌ d (String.◌++◌ "}" q)) in
      scan_open (String.◌++◌ (String.◌∷◌ c n) tail)
      ∙ scan_first c n tail close colon
      ∙ scan-named (one c) n tail n_close n_colon
      ∙ ap (λ x. scan env (named x) tail) (one-append c n)
      ∙ scan_colon (String.◌∷◌ c n) (String.◌++◌ d (String.◌++◌ "}" q))
      ∙ scan-defaulted (String.◌∷◌ c n) "" d (String.◌++◌ "}" q) d_close
      ∙ ap (λ x. scan env (defaulted (String.◌∷◌ c n) x) (String.◌++◌ "}" q)) (nil-append d)
      ∙ scan_close (String.◌∷◌ c n) d q

  -- A reference without a default.
  abbrev pub bare : String → String → String
  bare name q = String.◌++◌ "${" (String.◌++◌ name (String.◌++◌ "}" q))

  scan_end :
      (n r : String)
      → scan env (named n) (String.◌++◌ "}" r) ≡ String.◌++◌ (value_of env n "") (scan env plain r)
  unfolding scan step
  scan_end n r = rw (cons-append (String.char_at "}" 0) "" r, nil-append r) refl

  scan-bare :
      (c : Char) (n q : String)
      → (code c == b'}') ≡ false
      → (code c == b':') ≡ false
      → lacks b'}' n ≡ true
      → lacks b':' n ≡ true
      → scan env plain (bare (String.◌∷◌ c n) q)
        ≡ String.◌++◌ (value_of env (String.◌∷◌ c n) "") (scan env plain q)
  scan-bare c n q close colon n_close n_colon =
      let tail = String.◌++◌ "}" q in
      scan_open (String.◌++◌ (String.◌∷◌ c n) tail)
      ∙ scan_first c n tail close colon
      ∙ scan-named (one c) n tail n_close n_colon
      ∙ ap (λ x. scan env (named x) tail) (one-append c n)
      ∙ scan_end (String.◌∷◌ c n) q

  -- What a reference with a default stands for: the variable's value, or the default where this is empty.
  abbrev pub StandsFor : String → String → String → Type 0
  StandsFor name default v = ((env name ≢ "") × (v ≡ env name)) ⊎ ((env name ≡ "") × (v ≡ default))

  value_of-StandsFor :
      (name default v : String) → StandsFor name default v → value_of env name default ≡ v
  unfolding value_of
  value_of-StandsFor name default v (inl (there, is_value)) =
      elim (Bool-cases (str_eq (env name) "")) [
        | inl blank ↦ absurd (there ((eq_iff (env name) "").0 blank))
        | inr set ↦ rw set (sym is_value)
      ]
  value_of-StandsFor name default v (inr (blank, is_default)) =
      rw ((eq_iff (env name) "").1 blank) (sym is_default)

  -- A value with a reference `${NAME:default}` or `${NAME}` in it, before which no `$` stands, becomes
  -- what stands before it, what the reference stands for, and what the rest becomes: the variable's value
  -- or, where this is empty, the default or nothing. The name is not empty and has no `}` and no `:`,
  -- and the default no `}`.
  pub substitute_env_var-reference :
      (p : String) (c : Char) (n d q v w : String)
      → lacks b'$' p ≡ true
      → lacks b'}' (String.◌∷◌ c n) ≡ true
      → lacks b':' (String.◌∷◌ c n) ≡ true
      → lacks b'}' d ≡ true
      → StandsFor (String.◌∷◌ c n) d v
      → StandsFor (String.◌∷◌ c n) "" w
      → (substitute_env_var env (String.◌++◌ p (reference (String.◌∷◌ c n) d q))
          ≡ String.◌++◌ p (String.◌++◌ v (substitute_env_var env q)))
        × (substitute_env_var env (String.◌++◌ p (bare (String.◌∷◌ c n) q))
            ≡ String.◌++◌ p (String.◌++◌ w (substitute_env_var env q)))
  unfolding substitute_env_var lacks
  substitute_env_var-reference p c n d q v w before close colon default with_default without = (
    scan-plain p (reference (String.◌∷◌ c n) d q) before
        ∙ ap (String.◌++◌ p) (
            scan-reference c n d q (ground arith) (ground arith) (ground arith) (ground arith)
              default
            ∙ ap (λ x. String.◌++◌ x (scan env plain q))
                (value_of-StandsFor (String.◌∷◌ c n) d v with_default)),
    scan-plain p (bare (String.◌∷◌ c n) q) before
        ∙ ap (String.◌++◌ p) (
            scan-bare c n q (ground arith) (ground arith) (ground arith) (ground arith)
            ∙ ap (λ x. String.◌++◌ x (scan env plain q))
                (value_of-StandsFor (String.◌∷◌ c n) "" w without)),
  )

  -- A value without `$` stays as it is.
  substitute_env_var_id : (p : String) → lacks b'$' p ≡ true → substitute_env_var env p ≡ p
  unfolding substitute_env_var scan
  substitute_env_var_id p h =
      ap (scan env plain) (sym (append-nil p)) ∙ scan-plain p "" h ∙ append-nil p
