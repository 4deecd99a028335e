-- ===== src/P2p/Overlay/Applied.antt =====
-- pkg/p2p/manager.go: what `ApplyWireGuardConfig` runs wg-quick on, and what it stores.
use Prim.Native.String.{String}
use cloudbridge_client.Prelude.{◌≡◌, arith, inl, inr, none, ◌∷◌, Result-cases, Option-cases}
use cloudbridge_client.Prelude.Time.{Time}
use cloudbridge_client.Api.WireGuard
use cloudbridge_client.Api.WireGuard.{Disk, save_wireguard_config, save_with_backup, ConfigResponse}
use cloudbridge_client.Api.WireGuard.Written.{applied_text}
use cloudbridge_client.P2p.{P2pManager, Services}
use cloudbridge_client.P2p.Overlay.{get_wireguard_config, save_and_apply, apply_wireguard_config}

module _ (s : Services) where
  -- The disk of a save keeps the runs.
  ups_kept :
      (config : String) (d : Disk)
      → (save_wireguard_config s.sys config "/tmp/wg-client.conf" d).1.ups ≡ d.ups
  unfolding save_wireguard_config save_with_backup WireGuard.make_backup WireGuard.write_file
  ups_kept config d = ground arith

  ran_on_path :
      (now : Time) (config : String) (d : Disk)
      → (save_and_apply s now config d).0 ≡ none
      → (save_and_apply s now config d).1.ups ≡ "/tmp/wg-client.conf" ∷ d.ups
  unfolding save_and_apply
  ran_on_path now config d h =
      let d' : Disk = (save_wireguard_config s.sys config "/tmp/wg-client.conf" d).1 in
      let kept = ups_kept config d in
      elim (Option-cases (save_wireguard_config s.sys config "/tmp/wg-client.conf" d).0) [
        | inr (e, bad) ↦ absurd (ground arith)
        | inl fine ↦
            elim (Option-cases
              (WireGuard.apply_wireguard_config s.sys now "/tmp/wg-client.conf" d').1) [
                | inr (e, bad) ↦ absurd (ground arith)
                | inl applied ↦
                    let text = applied_text s.sys now "/tmp/wg-client.conf" d' applied in
                    ground arith
              ]
      ]

  -- Where `ApplyWireGuardConfig` succeeds, wg-quick was run on a file whose text is the path of the saved
  -- configuration, not the configuration.
  pub applied_path :
      {Pub : Type 0} (now : Time) (m : P2pManager Pub) (d : Disk)
      → (apply_wireguard_config s now m d).0 ≡ none
      → (apply_wireguard_config s now m d).2.ups ≡ "/tmp/wg-client.conf" ∷ d.ups
  unfolding apply_wireguard_config
  applied_path now m d h = elim (Result-cases (get_wireguard_config s m).0) [
    | inr (e, bad) ↦ absurd (ground arith)
    | inl (c, got) ↦ let ran = ran_on_path now c.client_config d (ground arith) in ground arith
  ]
