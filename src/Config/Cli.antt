-- ===== src/Config/Cli.antt =====
-- src/config.c, `config_apply_cli`: the loop over the options of the command line.
use android_usb_tether_macos.Config.File.{config_load_file}
use android_usb_tether_macos.Config.{TetherConfig, strlcpy, log_debug, skip_space}
use android_usb_tether_macos.Wire.{Bytes}
use android_usb_tether_macos.Prelude.{
  ℕ, [], ◌∷◌, none, some, true, inl, inr, ℤ, Option, ◌⊎◌, List, if◌then◌else◌, leb, pos, ◌==◌, ◌&&◌,
  min, ◌*◌, minus_one, ◌+◌, to_int, ◌-◌, is_negative, ◌^◌,
}

-- What `getopt_long` gives, one option after the other.
pub data CliOption : Type 0 where
  opt_no_route : CliOption
  opt_no_dns : CliOption
  opt_static : Bytes → CliOption
  opt_gateway : Bytes → CliOption
  opt_netmask : Bytes → CliOption
  opt_verbose : CliOption
  opt_ui_pid : Bytes → CliOption
  opt_config : Bytes → CliOption
  opt_version : CliOption
  opt_watch : CliOption
  opt_help : CliOption
  opt_unknown : CliOption

-- The function returns, or the process exits with status 0.
pub data CliResult : Type 0 where
  returned : ℤ → TetherConfig → CliResult
  exited : CliResult

-- The value of `strtol` on a string that is a number from start to end, else `none`: it reads the digits
-- after white space and a sign, and stops at the largest `long`.
abbrev pub digits_value : Bytes → ℕ → Option ℕ
digits_value [] acc = some acc
digits_value (b ∷ bs) acc =
    if leb 48 b && leb b 57 then digits_value bs (min (10 * acc + (b - 48)) (2 ^ 63 - 1)) else none

abbrev pub strtol_unsigned : Bytes → Option ℕ
strtol_unsigned [] = none
strtol_unsigned (b ∷ bs) = digits_value (b ∷ bs) 0

-- The positive values; a number with a minus sign is refused by the caller like no number.
abbrev pub strtol_positive : Bytes → Option ℕ
strtol_positive [] = none
strtol_positive (b ∷ bs) = elim (strtol_unsigned (if b == 43 then bs else b ∷ bs)) [
  | none ↦ none
  | some n ↦ if n == 0 then none else some n
]

-- One option: go on with a configuration, or stop with a result. `files` is the file system.
unfoldable pub apply_cli_option :
    (Bytes → Option Bytes) → CliOption → TetherConfig → CliResult ⊎ TetherConfig
apply_cli_option files opt_no_route cfg = inr (record cfg { no_route = true })
apply_cli_option files opt_no_dns cfg = inr (record cfg { no_dns = true })
apply_cli_option files (opt_static arg) cfg = inr (record cfg { static_ip = strlcpy arg 16 })
apply_cli_option files (opt_gateway arg) cfg = inr (record cfg { gateway = strlcpy arg 16 })
apply_cli_option files (opt_netmask arg) cfg = inr (record cfg { netmask = strlcpy arg 16 })
apply_cli_option files opt_verbose cfg = inr (record cfg { verbose = true; log_level = log_debug })
apply_cli_option files (opt_ui_pid arg) cfg = elim (strtol_positive (skip_space arg)) [
  | none ↦ inl (returned minus_one cfg)
  | some val ↦ inr (record cfg { ui_pid = to_int val })
]
apply_cli_option files (opt_config arg) cfg =
    let (ret, cfg') = config_load_file (files arg) cfg in
    if is_negative ret then inl (returned minus_one cfg') else inr cfg'
apply_cli_option files opt_version cfg = inl exited
apply_cli_option files opt_watch cfg = inr (record cfg { watch_mode = true })
apply_cli_option files opt_help cfg = inl (returned (pos 1) cfg)
apply_cli_option files opt_unknown cfg = inl (returned minus_one cfg)

unfoldable pub config_apply_cli : (Bytes → Option Bytes) → List CliOption → TetherConfig → CliResult
config_apply_cli files [] cfg = returned (pos 0) cfg
config_apply_cli files (o ∷ os) cfg = elim (apply_cli_option files o cfg) [
  | inl result ↦ result
  | inr cfg' ↦ config_apply_cli files os cfg'
]
