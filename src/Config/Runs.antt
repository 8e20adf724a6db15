-- ===== src/Config/Runs.antt =====
-- src/config.c on concrete files and command lines.
use android_usb_tether_macos.Config.Printed.ReadsBack.{config_load_file-print_settings}
use android_usb_tether_macos.Config.Printed.{
  print_settings, Setting, gateway_is, no_route_is, level_is,
}
use android_usb_tether_macos.Config.Start.{config_load_default, main_start}
use android_usb_tether_macos.Config.Fits.{IsWithin, Returns, config_strings_fit, Starts}
use android_usb_tether_macos.Config.{config_init_defaults, strip, log_debug}
use android_usb_tether_macos.Config.File.{
  config_load_file, load_lines, gateway_key, load_line, fgets_lines, stripped_line, section_line,
  key_line, set_key,
}
use android_usb_tether_macos.Config.Cli.{
  config_apply_cli, apply_cli_option, CliOption, opt_static, returned, opt_ui_pid, opt_no_dns,
}
use android_usb_tether_macos.Wire.{Bytes}
use android_usb_tether_macos.Prelude.{
  [], ◌∷◌, none, some, List, ◌≡◌, ◌++◌, replicate, minus_one, refl, pos, arith, Option, true, false,
}

-- "[network]", a comment, "gateway = 10.0.0.1" with spaces around it, and "No_Route=yes", which is no key.
abbrev text : Bytes
text =
    91
    ∷ 110
    ∷ 101
    ∷ 116
    ∷ 119
    ∷ 111
    ∷ 114
    ∷ 107
    ∷ 93
    ∷ 10
    ∷ 35
    ∷ 61
    ∷ 10
    ∷ 32
    ∷ (gateway_key
        ++ (32 ∷ 61 ∷ 32 ∷ 49 ∷ 48 ∷ 46 ∷ 48 ∷ 46 ∷ 48 ∷ 46 ∷ 49 ∷ 32 ∷ 10 ∷ 78 ∷ 111 ∷ 61 ∷ 121
            ∷ 101 ∷ 115 ∷ []))

load_text :
    config_load_file (some text) config_init_defaults
    ≡ (pos 0, record config_init_defaults { gateway = 49 ∷ 48 ∷ 46 ∷ 48 ∷ 46 ∷ 48 ∷ 46 ∷ 49 ∷ [] })
unfolding config_load_file load_lines load_line fgets_lines strip stripped_line section_line
    key_line set_key config_init_defaults
load_text = refl

-- A static address that is too long for its array, then a process id that is no number.
abbrev options : List CliOption
options = opt_static (replicate 20 49) ∷ opt_ui_pid (49 ∷ 120 ∷ []) ∷ opt_no_dns ∷ []

refused_pid :
    config_apply_cli (λ path. none) options config_init_defaults
    ≡ returned minus_one (record config_init_defaults { static_ip = replicate 15 49 })
unfolding config_apply_cli apply_cli_option config_init_defaults
refused_pid = refl

config_strings_fit_example :
    let files : Bytes → Option Bytes = λ path. some text in
    let cfg = (config_load_default files none (some []) config_init_defaults).1 in
    IsWithin cfg
    × Returns IsWithin (config_apply_cli files options cfg)
    × Starts IsWithin 0 (main_start files none (some []) options 0)
config_strings_fit_example = config_strings_fit (λ path. some text) none (some []) options 0

-- "10.0.0.1", and no route, both changed later.
abbrev settings : List Setting
settings =
    gateway_is (49 ∷ 48 ∷ 46 ∷ 48 ∷ 46 ∷ 48 ∷ 46 ∷ 49 ∷ [])
    ∷ no_route_is true
    ∷ level_is log_debug
    ∷ gateway_is (49 ∷ [])
    ∷ no_route_is false
    ∷ []

config_load_file-print_settings_example :
    config_load_file (some (print_settings settings)) config_init_defaults
    ≡ (pos 0, record config_init_defaults { gateway = 49 ∷ []; log_level = log_debug })
unfolding config_init_defaults
config_load_file-print_settings_example =
    config_load_file-print_settings settings config_init_defaults (ground arith)
