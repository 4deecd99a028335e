-- ===== src/RelayErrors/Contains.antt =====
-- pkg/errors/errors.go: `contains`, over the bytes of the strings, and that it decides whether one
-- string stands somewhere in another.
use mathlib.Core.List.{append-nil}
use cloudbridge_client.Prelude.{
  ℕ, zero, suc, ◌+◌, ◌-◌, ◌≤◌, ◌<◌, ◌≡◌, refl, sym, ◌∙◌, ap, arith, ◌==◌, ==_iff, leb, ltb, Bool,
  true, false, ◌&&◌, ◌||◌, ◌↔◌, inl, inr, List, [], ◌∷◌, ◌++◌, length, take, drop, length-append,
  Bool-cases, if◌then◌else◌,
}

abbrev pub Bytes : Type 0
Bytes = List ℕ

-- `s == t` on strings.
unfoldable pub same : Bytes → Bytes → Bool
same [] [] = true
same (a ∷ s) (b ∷ t) = a == b && same s t
same _ _ = false

-- `s[i:j]`
abbrev pub slice : Bytes → ℕ → ℕ → Bytes
slice s i j = take (j - i) (drop i s)

-- The loop from `i` on, with the rounds left.
unfoldable pub found_from : ℕ → ℕ → Bytes → Bytes → Bool
found_from zero i s sub = false
found_from (suc n) i s sub =
    let rest = found_from n (i + 1) s sub in
    if same (slice s i (i + length sub)) sub then true else rest

-- `contains`: the equal, the prefix and the suffix case come before the loop from 1.
unfoldable pub contains : Bytes → Bytes → Bool
contains s sub =
    leb (length sub) (length s)
    && (same s sub
        || (ltb (length sub) (length s)
            && (same (slice s 0 (length sub)) sub
                || (same (slice s (length s - length sub) (length s)) sub
                    || found_from (length s - length sub) 1 s sub))))

-- `sub` stands somewhere in `s`.
abbrev pub Infix : Bytes → Bytes → Type 0
Infix sub s = (before : Bytes) × (after : Bytes) × (s ≡ before ++ (sub ++ after))

same_self : (t : Bytes) → same t t ≡ true
unfolding same
same_self [] = refl
same_self (b ∷ t) = ground (arith, same_self t)

eq_of_same : (s t : Bytes) → same s t ≡ true → s ≡ t
unfolding same
eq_of_same [] [] h = refl
eq_of_same (a ∷ s) (b ∷ t) h = ground (arith, eq_of_same s t)
eq_of_same [] (b ∷ t) h = cc
eq_of_same (a ∷ s) [] h = cc

pub same_iff : (s t : Bytes) → (same s t ≡ true) ↔ (s ≡ t)
same_iff s t = (eq_of_same s t, λ e. rw e (same_self t))

-- A match at position `i`.
abbrev At : ℕ → Bytes → Bytes → Type 0
At i sub s = take (length sub) (drop i s) ≡ sub

take-append : (s t : Bytes) → take (length s) (s ++ t) ≡ s
take-append [] t = refl
take-append (a ∷ s) t = ap (◌∷◌ a) (take-append s t)

drop-append : (s t : Bytes) → drop (length s) (s ++ t) ≡ t
drop-append [] t = refl
drop-append (a ∷ s) t = drop-append s t

take-drop : (i : ℕ) (s : Bytes) → s ≡ take i s ++ drop i s
take-drop zero s = refl
take-drop (suc i) [] = refl
take-drop (suc i) (a ∷ s) = ap (◌∷◌ a) (take-drop i s)

At-Infix : (i : ℕ) (sub s : Bytes) → At i sub s → Infix sub s
At-Infix i sub s h = (
  take i s,
  drop (length sub) (drop i s),
  take-drop i s
      ∙ ap (◌++◌ (take i s)) (
          take-drop (length sub) (drop i s)
          ∙ ap (λ (t : Bytes). t ++ drop (length sub) (drop i s)) h),
)

Infix-At :
    (sub s : Bytes)
    → (w : Infix sub s) → At (length w.0) sub s × (length w.0 + length sub ≤ length s)
Infix-At sub s (before, after, e) = (
  rw (e, drop-append before (sub ++ after)) (take-append sub after),
  omega (arith, ap length e, length-append before (sub ++ after), length-append sub after),
)

slice-At : (i : ℕ) (sub s : Bytes) → At i sub s → same (slice s i (i + length sub)) sub ≡ true
slice-At i sub s h =
    let e : i + length sub - i ≡ length sub = omega arith in rw (e, h) (same_self sub)

At-of_slice : (i : ℕ) (sub s : Bytes) → same (slice s i (i + length sub)) sub ≡ true → At i sub s
At-of_slice i sub s h =
    let e : i + length sub - i ≡ length sub = omega arith in
    rw e at (eq_of_same (slice s i (i + length sub)) sub h)

found_sound : (n i : ℕ) (s sub : Bytes) → found_from n i s sub ≡ true → (j : ℕ) × At j sub s
unfolding found_from
found_sound zero i s sub h = cc
found_sound (suc n) i s sub h = elim (Bool-cases (same (slice s i (i + length sub)) sub)) [
  | inl here ↦ (i, At-of_slice i sub s here)
  | inr later ↦ found_sound n (i + 1) s sub (ground arith)
]

found_complete :
    (n i j : ℕ) (s sub : Bytes) → i ≤ j → j < i + n → At j sub s → found_from n i s sub ≡ true
unfolding found_from
found_complete zero i j s sub l u h = absurd (omega arith)
found_complete (suc n) i j s sub l u h = elim (Bool-cases (i == j)) [
  | inl here ↦ rw ((==_iff i j).0 here, slice-At j sub s h)
  | inr later ↦
      let rest = found_complete n (i + 1) j s sub (ground arith) (omega arith) h in
      ground (arith, rest)
]

prefix_sound : (s sub : Bytes) → same (slice s 0 (length sub)) sub ≡ true → At 0 sub s
prefix_sound s sub h =
    let e : length sub - 0 ≡ length sub = omega arith in
    rw e at (eq_of_same (slice s 0 (length sub)) sub h)

suffix_sound :
    (s sub : Bytes)
    → length sub ≤ length s
    → same (slice s (length s - length sub) (length s)) sub ≡ true
    → At (length s - length sub) sub s
suffix_sound s sub l h =
    let e : length s - (length s - length sub) ≡ length sub = omega arith in
    rw e at (eq_of_same (slice s (length s - length sub) (length s)) sub h)

whole_sound : (s sub : Bytes) → same s sub ≡ true → Infix sub s
whole_sound s sub h = ([], [], eq_of_same s sub h ∙ sym (append-nil sub))

contains_sound : (s sub : Bytes) → contains s sub ≡ true → Infix sub s
unfolding contains
contains_sound s sub h = elim (Bool-cases (same s sub)) [
  | inl whole ↦ whole_sound s sub whole
  | inr part ↦ elim (Bool-cases (same (slice s 0 (length sub)) sub)) [
    | inl first ↦ At-Infix 0 sub s (prefix_sound s sub first)
    | inr no_prefix ↦ elim (Bool-cases (same (slice s (length s - length sub) (length s)) sub)) [
      | inl last ↦ At-Infix (length s - length sub) sub s (suffix_sound s sub (ground arith) last)
      | inr no_suffix ↦
          let (j, at) = found_sound (length s - length sub) 1 s sub (ground arith) in
          At-Infix j sub s at
    ]
  ]
]

take_all : (s : Bytes) → take (length s) s ≡ s
take_all [] = refl
take_all (a ∷ s) = ap (◌∷◌ a) (take_all s)

whole_complete : (s sub : Bytes) → length sub ≡ length s → At 0 sub s → same s sub ≡ true
whole_complete s sub e h =
    (same_iff s sub).1 (sym (take_all s) ∙ ap (λ (n : ℕ). take n s) (sym e) ∙ h)

prefix_complete : (s sub : Bytes) → At 0 sub s → same (slice s 0 (length sub)) sub ≡ true
prefix_complete s sub h =
    let e : length sub - 0 ≡ length sub = omega arith in rw (e, h) (same_self sub)

contains-At :
    (s sub : Bytes) (j : ℕ) → At j sub s → j + length sub ≤ length s → contains s sub ≡ true
unfolding contains
contains-At s sub zero h l = elim (Bool-cases (length sub == length s)) [
  | inl whole ↦
      let e : same s sub ≡ true = whole_complete s sub ((==_iff _ _).0 whole) h in ground arith
  | inr part ↦
      let e : same (slice s 0 (length sub)) sub ≡ true = prefix_complete s sub h in ground arith
]
contains-At s sub (suc j) h l =
    let e = found_complete (length s - length sub) 1 (suc j) s sub (omega arith) (omega arith) h in
    ground arith

-- The search finds a string exactly if it stands somewhere in the other: at the start, at the end,
-- in between, or as the whole.
pub contains_iff : (s sub : Bytes) → (contains s sub ≡ true) ↔ Infix sub s
contains_iff s sub =
    (contains_sound s sub, λ w. let (h, l) = Infix-At sub s w in contains-At s sub (length w.0) h l)
