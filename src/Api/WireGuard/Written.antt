-- ===== src/Api/WireGuard/Written.antt =====
-- pkg/api/wireguard_client.go: what stands on the disk after a call.
use Prim.Native.String.{String}
use cloudbridge_client.Prelude.{◌≡◌, arith, inl, inr, Bool, none, some, ◌∷◌, Option-cases}
use cloudbridge_client.Prelude.Time.{Time}
use cloudbridge_client.Prelude.StringMap.{lookup, lookup-insert_self}
use cloudbridge_client.Api.WireGuard.{
  System, Disk, make_backup, write_file, save_with_backup, apply_wireguard_config,
}

module _ (sys : System) where
  -- A configuration that was saved stands under its name.
  lookup-save :
      (wanted : Bool) (config filename : String) (d : Disk)
      → (save_with_backup sys wanted config filename d).0 ≡ none
      → lookup filename (save_with_backup sys wanted config filename d).1.files ≡ some config
  unfolding save_with_backup write_file
  lookup-save wanted config filename d h =
      elim (Option-cases (make_backup sys wanted filename d).0) [
        | inr (e, bad) ↦ absurd (ground arith)
        | inl fine ↦
            let d' : Disk = (make_backup sys wanted filename d).1 in
            let written = lookup-insert_self filename config d'.files in ground arith
      ]

  -- Where `ApplyWireGuardConfig` succeeds, wg-quick was run on a file with the text that it was given.
  pub applied_text :
      (now : Time) (config : String) (d : Disk)
      → (apply_wireguard_config sys now config d).1 ≡ none
      → (apply_wireguard_config sys now config d).2.ups ≡ config ∷ d.ups
  unfolding apply_wireguard_config
  applied_text now config d h =
      let written = lookup-insert_self (sys.temp now) config d.files in ground arith
