-- ===== src/Config/Start.antt =====
-- src/config.c, `config_default_path` and `config_load_default`, and the start of src/main.c, `main`.
use android_usb_tether_macos.Config.Cli.{CliOption, CliResult, config_apply_cli, returned, exited}
use android_usb_tether_macos.Config.File.{config_load_file}
use android_usb_tether_macos.Config.{TetherConfig, config_init_defaults}
use android_usb_tether_macos.Wire.{Bytes}
use android_usb_tether_macos.Prelude.{
  ℕ, ℤ, [], ◌∷◌, ◌++◌, none, some, Option, List, pos, negsuc, minus_one, take, ◌==◌, if◌then◌else◌,
  not,
}

-- "/.config/android-tether/config"
abbrev pub below_home : Bytes
below_home =
    47 ∷ 46 ∷ 99 ∷ 111 ∷ 110 ∷ 102 ∷ 105 ∷ 103 ∷ 47 ∷ 97 ∷ 110 ∷ 100 ∷ 114 ∷ 111 ∷ 105 ∷ 100 ∷ 45
    ∷ 116 ∷ 101 ∷ 116 ∷ 104 ∷ 101 ∷ 114 ∷ 47 ∷ 99 ∷ 111 ∷ 110 ∷ 102 ∷ 105 ∷ 103 ∷ []

-- `home` is the variable HOME, `pw_dir` the home directory of the user's entry, where there are such; the
-- path is cut off to its array of 512 bytes.
unfoldable pub config_default_path : Option Bytes → Option Bytes → Option Bytes
config_default_path (some home) pw_dir = some (take 511 (home ++ below_home))
config_default_path none none = none
config_default_path none (some dir) = some (take 511 (dir ++ below_home))

-- `files` gives what a path holds.
unfoldable pub config_load_default :
    (Bytes → Option Bytes) → Option Bytes → Option Bytes → TetherConfig → ℤ × TetherConfig
config_load_default files home pw_dir cfg = elim (config_default_path home pw_dir) [
  | none ↦ (minus_one, cfg)
  | some path ↦ config_load_file (files path) cfg
]

-- `main` returns with a status, or goes on to its loop.
pub data MainStart : Type 0 where
  exits : ℕ → MainStart
  goes_on : TetherConfig → MainStart

-- The status for what the options give.
unfoldable pub start_result : CliResult → ℕ → MainStart
start_result exited uid = exits 0
start_result (returned (pos n) cfg) uid =
    if n == 1 then exits 0 else if not (uid == 0) then exits 1 else goes_on cfg
start_result (returned (negsuc n) cfg) uid = exits 1

-- The defaults, then the default file, which need not be there, then the options; only root goes on.
unfoldable pub main_start :
    (Bytes → Option Bytes) → Option Bytes → Option Bytes → List CliOption → ℕ → MainStart
main_start files home pw_dir os uid =
    let (ret, cfg) = config_load_default files home pw_dir config_init_defaults in
    start_result (config_apply_cli files os cfg) uid
