-- ===== src/Api/WireGuard.antt =====
-- pkg/api/wireguard_client.go: the files of the WireGuard configuration and the runs of wg-quick. The
-- file system is a map from paths to texts; what the system refuses, the string functions and the
-- outcome of commands are parameters.
use Prim.Native.String.{String}
use text.Mathlib.Text.{◌==◌ as str_eq, starts_with}
use cloudbridge_client.Prelude.{
  Bool, true, false, ◌&&◌, ◌||◌, not, is_some, Option, none, some, List, [], ◌∷◌, Result, ok, err,
  if◌then◌else◌,
}
use cloudbridge_client.Prelude.Time.{Time}
use cloudbridge_client.Prelude.StringMap.{Map, lookup, insert, delete}
use cloudbridge_client.Api.Client.{Decoder, Tries, Failure, do_request_with_retry}
pub mod Written

-- The system: `strings`, `filepath` and `os`, whether the process is root, and how commands end. `temp`
-- is the path that `ApplyWireGuardConfig` makes from the clock.
pub record System : Type 0 where
  pub is_blank : String → Bool
  pub lines : String → List String
  pub trim : String → String
  pub dir : String → String
  pub base : String → String
  pub strip_conf : String → String
  pub backup_of : String → String
  pub temp_dir : String
  pub temp : Time → String
  pub is_root : Bool
  pub can_mkdir : String → Bool
  pub can_write : String → Bool
  pub can_rename : String → Bool
  pub is_up : String → Bool
  pub up_works : String → Bool
  pub down_works : String → Bool

pub data Error : Type 0 where
  empty_config no_filename no_dir no_backup not_written not_root already_up up_failed no_path
        not_found down_failed not_implemented :
      Error

-- The disk and what wg-quick was run on: the texts of the files it was to bring up, and what it was to
-- take down, the latest first.
pub record Disk : Type 0 where
  pub files : Map String
  pub ups : List String
  pub downs : List String

module _ (sys : System) where
  -- The backup of `SaveWireGuardConfigWithBackup`.
  unfoldable pub make_backup : Bool → String → Disk → Option Error × Disk
  make_backup wanted filename d =
      if wanted
      then elim (lookup filename d.files) [
        | none ↦ (none, d)
        | some old ↦
            if sys.can_rename filename
            then (
              none,
              record d { files = insert (sys.backup_of filename) old (delete filename d.files) },
            )
            else (some no_backup, d)
      ]
      else (none, d)

  -- `os.WriteFile`
  unfoldable pub write_file : String → String → Disk → Option Error × Disk
  write_file filename config d =
      if sys.can_write filename
      then (none, record d { files = insert filename config d.files })
      else (some not_written, d)

  -- `SaveWireGuardConfigWithBackup` and `SaveWireGuardConfig`.
  unfoldable pub save_with_backup : Bool → String → String → Disk → Option Error × Disk
  save_with_backup wanted config filename d =
      if sys.is_blank config
      then (some empty_config, d)
      else if str_eq filename ""
      then (some no_filename, d)
      else if not (sys.can_mkdir (sys.dir filename))
      then (some no_dir, d)
      else (let (backed, d') = make_backup wanted filename d in
          elim backed [ some e ↦ (some e, d') | none ↦ write_file filename config d' ])

  unfoldable pub save_wireguard_config : String → String → Disk → Option Error × Disk
  save_wireguard_config = save_with_backup false

  -- The loops of `extractInterfaceName`: the inner one skips the first line.
  unfoldable pub has_line : String → List String → Bool
  has_line prefix [] = false
  has_line prefix (l ∷ ls) = starts_with (sys.trim l) prefix || has_line prefix ls

  abbrev rest_of : List String → List String
  rest_of [] = []
  rest_of (l ∷ ls) = ls

  unfoldable pub extract_interface_name : String → String
  extract_interface_name config =
      let ls = sys.lines config in
      if has_line "[Interface]" ls && has_line "Address" (rest_of ls) then "wg0" else ""

  -- `wg-quick up` on a file.
  abbrev quick_up : String → Disk → Disk
  quick_up path d = elim (lookup path d.files) [
    | none ↦ d
    | some config ↦ record d { ups = config ∷ d.ups }
  ]

  -- `ApplyWireGuardConfig`: the path of the file, empty where there is none yet, and the error.
  unfoldable pub apply_wireguard_config : Time → String → Disk → String × Option Error × Disk
  apply_wireguard_config now config d =
      if sys.is_blank config
      then ("", some empty_config, d)
      else if not sys.is_root
      then ("", some not_root, d)
      else if not (sys.can_mkdir sys.temp_dir)
      then ("", some no_dir, d)
      else if not (sys.can_write (sys.temp now))
      then ("", some not_written, d)
      else let d' = record d { files = insert (sys.temp now) config d.files } in
        let name = extract_interface_name config in
        if not (str_eq name "") && sys.is_up name
        then (sys.temp now, some already_up, d')
        else if sys.up_works (sys.temp now)
        then (sys.temp now, none, quick_up (sys.temp now) d')
        else (sys.temp now, some up_failed, quick_up (sys.temp now) d')

  -- `DownWireGuardConfig`.
  unfoldable pub down_wireguard_config : String → Disk → Option Error × Disk
  down_wireguard_config path d =
      let take_down : String → Option Error × Disk = λ what. (
        if sys.down_works what then none else some down_failed,
        record d { downs = what ∷ d.downs },
      ) in
      let name = sys.strip_conf (sys.base path) in
      if sys.is_blank path
      then (some no_path, d)
      else if is_some (lookup path d.files)
      then take_down path
      else if not (str_eq name "") && sys.is_up name
      then take_down name
      else (some not_found, d)

-- `WireGuardConfigResponse`.
pub record ConfigResponse : Type 0 where
  pub success : Bool
  pub client_config : String
  pub peer_ip : String
  pub tenant_cidr : String
  pub error : String

pub data FetchError (dec : Decoder ConfigResponse) : Type 0 where
  not_fetched : Failure dec → FetchError dec
  refused : String → FetchError dec

-- `GetWireGuardConfig`.
unfoldable pub get_wireguard_config :
    (dec : Decoder ConfigResponse) → Tries dec → Result (FetchError dec) ConfigResponse
get_wireguard_config dec w = elim (do_request_with_retry dec w).result [
  | err e ↦ err (not_fetched e)
  | ok c ↦ if c.success then ok c else err (refused c.error)
]
