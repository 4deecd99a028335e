-- ===== src/Probes/Counts.antt =====
-- pkg/probes/synthetic.go: every probe has a result, and the results count the checks.
use Prim.Native.String.{String}
use text.Mathlib.Text.{◌==◌ as str_eq}
use text.Mathlib.TextEquality.{eq_iff}
use cloudbridge_client.Prelude.{
  ◌≤◌, ◌≡◌, refl, sym, ◌∙◌, arith, ◌⊎◌, inl, inr, Bool, true, false, Bool-cases, some, Option-cases,
  is_some, List, [], ◌∷◌,
}
use cloudbridge_client.Prelude.StringMap.{Map, lookup, insert, delete, lookup-insert, lookup-delete}
use cloudbridge_client.Prelude.Time.{Time, Duration}
use cloudbridge_client.Probes.{
  ProbeConfig, ProbeResult, Rates, SyntheticProbeManager, new_synthetic_probe_manager, add_probe,
  start, stop, checked, update_result, remove_probe, set_enabled, enable_probe, disable_probe,
}

module _ (fl : Rates) where
  -- A result counts no more successes than checks, and its rate is the one of its counts, or 0 before
  -- the first check.
  pub record IsCounted (r : ProbeResult fl.F) : Type 0 where
    pub bounded : r.success_count ≤ r.check_count
    pub rated :
        ((r.check_count ≡ 0) × (r.error_rate ≡ fl.zero_rate))
        ⊎ (r.error_rate ≡ fl.rate r.success_count r.check_count)

  -- The probes and the results have the same names, and every result is counted.
  pub record IsSound (m : SyntheticProbeManager fl) : Type 0 where
    pub named : (n : String) → is_some (lookup n m.probes) ≡ is_some (lookup n m.results)
    pub counted : (n : String) (r : ProbeResult fl.F) → lookup n m.results ≡ some r → IsCounted r

  IsCounted-checked :
      (now : Time) (success : Bool) (latency : Duration) (r : ProbeResult fl.F)
      → IsCounted r
      → IsCounted (checked fl now success latency r)
  unfolding checked
  IsCounted-checked now true latency r c =
      let b = c.bounded in record { bounded = omega arith; rated = inr refl }
  IsCounted-checked now false latency r c =
      let b = c.bounded in record { bounded = omega arith; rated = inr refl }

  insert-named :
      {A B : Type 0} (k : String) (x : A) (y : B) (ps : Map A) (rs : Map B)
      → ((n : String) → is_some (lookup n ps) ≡ is_some (lookup n rs))
      → (n : String) → is_some (lookup n (insert k x ps)) ≡ is_some (lookup n (insert k y rs))
  insert-named k x y ps rs h n =
      let same = h n in ground (arith, lookup-insert k n x ps, lookup-insert k n y rs)

  insert-IsCounted :
      (k : String) (y : ProbeResult fl.F) (rs : Map (ProbeResult fl.F))
      → IsCounted y
      → ((n : String) (r : ProbeResult fl.F) → lookup n rs ≡ some r → IsCounted r)
      → (n : String) (r : ProbeResult fl.F) → lookup n (insert k y rs) ≡ some r
      → IsCounted r
  insert-IsCounted k y rs c h n r e = elim (Bool-cases (str_eq k n)) [
    | inl here ↦ let same : y ≡ r = ground (arith, lookup-insert k n y rs) in rw (← same) c
    | inr there ↦ h n r (ground (arith, lookup-insert k n y rs))
  ]

  -- Replacing the value of a name that is there changes no name.
  replace-named :
      {A : Type 0} (k : String) (x old : A) (m : Map A)
      → lookup k m ≡ some old
      → (n : String) → is_some (lookup n (insert k x m)) ≡ is_some (lookup n m)
  replace-named k x old m found n = ground (arith, lookup-insert k n x m, eq_iff k n)

  delete-named :
      {A B : Type 0} (k : String) (ps : Map A) (rs : Map B)
      → ((n : String) → is_some (lookup n ps) ≡ is_some (lookup n rs))
      → (n : String) → is_some (lookup n (delete k ps)) ≡ is_some (lookup n (delete k rs))
  delete-named k ps rs h n =
      let same = h n in ground (arith, lookup-delete k n ps, lookup-delete k n rs)

  delete-IsCounted :
      (k : String) (rs : Map (ProbeResult fl.F))
      → ((n : String) (r : ProbeResult fl.F) → lookup n rs ≡ some r → IsCounted r)
      → (n : String) (r : ProbeResult fl.F) → lookup n (delete k rs) ≡ some r
      → IsCounted r
  delete-IsCounted k rs h n r e = h n r (ground (arith, lookup-delete k n rs))

  IsSound-add :
      (c : ProbeConfig) (m : SyntheticProbeManager fl) → IsSound m → IsSound (add_probe fl c m)
  unfolding add_probe
  IsSound-add c m s = record {
    named = insert-named c.name _ _ m.probes m.results s.named;
    counted =
        insert-IsCounted c.name _ m.results
          (record { bounded = omega arith; rated = inl (refl, refl) }) s.counted;
  }

  IsSound-update :
      (now : Time) (name : String) (success : Bool) (latency : Duration)
      (m : SyntheticProbeManager fl)
      → IsSound m
      → IsSound (update_result fl now name success latency m)
  unfolding update_result
  IsSound-update now name success latency m s = elim (Option-cases (lookup name m.results)) [
    | inl gone ↦ rw (gone, update_result) s
    | inr (r, found) ↦
        let r' = checked fl now success latency r in
        rw (found, update_result)
          (record {
            named = λ n. s.named n ∙ sym (replace-named name r' r m.results found n);
            counted =
                insert-IsCounted name r' m.results
                  (IsCounted-checked now success latency r (s.counted name r found)) s.counted;
          })
  ]

  IsSound-set_enabled :
      (on : Bool) (name : String) (m : SyntheticProbeManager fl)
      → IsSound m
      → IsSound (set_enabled fl on name m)
  unfolding set_enabled
  IsSound-set_enabled on name m s = elim (Option-cases (lookup name m.probes)) [
    | inl gone ↦ rw (gone, set_enabled) s
    | inr (p, found) ↦
        rw (found, set_enabled)
          (record {
            named =
                λ n. replace-named name (record p { enabled = on }) p m.probes found n ∙ s.named n;
            counted = s.counted;
          })
  ]

  -- What happens to a manager; a check may end after its probe was removed.
  pub data Op : Type 0 where
    added : ProbeConfig → Op
    removed enabled disabled : String → Op
    ended : Time → String → Bool → Duration → Op
    started stopped : Op

  unfoldable pub apply : Op → SyntheticProbeManager fl → SyntheticProbeManager fl
  apply (added c) m = add_probe fl c m
  apply (removed n) m = remove_probe fl n m
  apply (enabled n) m = enable_probe fl n m
  apply (disabled n) m = disable_probe fl n m
  apply (ended now n success latency) m = update_result fl now n success latency m
  apply started m = (start fl m).1
  apply stopped m = stop fl m

  unfoldable pub apply_ops : List Op → SyntheticProbeManager fl → SyntheticProbeManager fl
  apply_ops [] m = m
  apply_ops (op ∷ ops) m = apply_ops ops (apply op m)

  IsSound-running :
      (m : SyntheticProbeManager fl) (b : Bool) → IsSound m → IsSound (record m { running = b })
  IsSound-running m b s = record { named = s.named; counted = s.counted }

  IsSound-apply : (op : Op) (m : SyntheticProbeManager fl) → IsSound m → IsSound (apply op m)
  unfolding apply remove_probe enable_probe disable_probe start stop
  IsSound-apply (added c) m s = IsSound-add c m s
  IsSound-apply (removed n) m s = record {
    named = delete-named n m.probes m.results s.named;
    counted = delete-IsCounted n m.results s.counted;
  }
  IsSound-apply (enabled n) m s = IsSound-set_enabled true n m s
  IsSound-apply (disabled n) m s = IsSound-set_enabled false n m s
  IsSound-apply (ended now n success latency) m s = IsSound-update now n success latency m s
  IsSound-apply started m s = elim (Bool-cases m.running) [
    | inl on ↦ let e : (start fl m).1 ≡ m = ground arith in rw e s
    | inr off ↦
        let e : (start fl m).1 ≡ record m { running = true } = ground arith in
        rw e (IsSound-running m true s)
  ]
  IsSound-apply stopped m s = elim (Bool-cases m.running) [
    | inl on ↦
        let e : stop fl m ≡ record m { running = false } = ground arith in
        rw e (IsSound-running m false s)
    | inr off ↦ let e : stop fl m ≡ m = ground arith in rw e s
  ]

  IsSound-ops :
      (ops : List Op) (m : SyntheticProbeManager fl) → IsSound m → IsSound (apply_ops ops m)
  unfolding apply_ops
  IsSound-ops [] m s = s
  IsSound-ops (op ∷ ops) m s = IsSound-ops ops (apply op m) (IsSound-apply op m s)

  -- After any operations on a new manager, in any order and with checks that end after their probe was
  -- removed, the probes and the results have the same names, and every result counts no more successes
  -- than checks and has the rate of its counts.
  pub apply_ops-IsSound : (ops : List Op) → IsSound (apply_ops ops (new_synthetic_probe_manager fl))
  unfolding new_synthetic_probe_manager lookup
  apply_ops-IsSound ops =
      IsSound-ops ops (new_synthetic_probe_manager fl)
        (record { named = λ n. refl; counted = λ n r h. absurd (ground arith) })
