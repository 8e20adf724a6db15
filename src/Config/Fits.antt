-- ===== src/Config/Fits.antt =====
-- Every string of the configuration stays within its array.
use android_usb_tether_macos.Config.Start.{
  main_start, start_result, MainStart, config_load_default, config_default_path, exits, goes_on,
  below_home,
}
use android_usb_tether_macos.Ipc.{c_string}
use android_usb_tether_macos.Config.Cli.{
  apply_cli_option, CliResult, config_apply_cli, returned, CliOption, opt_static, exited,
  opt_gateway, opt_netmask, opt_ui_pid, strtol_positive, opt_config, opt_no_route, opt_no_dns,
  opt_verbose, opt_version, opt_watch, opt_help, opt_unknown,
}
use android_usb_tether_macos.Wire.{Bytes}
use android_usb_tether_macos.Config.{TetherConfig, config_init_defaults, strip, skip_space}
use android_usb_tether_macos.Config.File.{
  stripped_line, set_key, load_lines, config_load_file, section_line, key_line, load_line,
  fgets_lines, split_at_byte,
}
use android_usb_tether_macos.Prelude.{
  ℕ, [], ◌∷◌, none, some, inl, inr, length, arith, length-take, ◌<◌, Bool-cases, Option, ◌⊎◌, List,
  ◌==◌, ◌||◌, minus_one, to_int, is_negative, negsuc, ◌≤◌, pos, ◌≡◌, take, ◌++◌,
}

-- The strings leave room for the NUL in their 16 bytes.
pub record IsWithin (cfg : TetherConfig) : Type 0 where
  pub static_ip_fits : length cfg.static_ip < 16
  pub gateway_fits : length cfg.gateway < 16
  pub netmask_fits : length cfg.netmask < 16
  pub protocol_fits : length cfg.protocol < 16

config_init_defaults-IsWithin : IsWithin config_init_defaults
unfolding config_init_defaults
config_init_defaults-IsWithin = record {
  static_ip_fits = omega arith;
  gateway_fits = omega arith;
  netmask_fits = omega arith;
  protocol_fits = omega arith;
}

set_key-IsWithin :
    (section key val : Bytes) (cfg : TetherConfig)
    → IsWithin cfg
    → IsWithin (set_key section key val cfg)
unfolding set_key
set_key-IsWithin section key val cfg w = ground (arith, length-take 15 val)

section_line-IsWithin :
    (split : Option (Bytes × Bytes)) (state : Bytes × TetherConfig)
    → IsWithin state.1
    → IsWithin (section_line split state).1
unfolding section_line
section_line-IsWithin none state w = w
section_line-IsWithin (some (name, after)) (section, cfg) w = w

key_line-IsWithin :
    (split : Option (Bytes × Bytes)) (state : Bytes × TetherConfig)
    → IsWithin state.1
    → IsWithin (key_line split state).1
unfolding key_line
key_line-IsWithin none state w = w
key_line-IsWithin (some (key, val)) (section, cfg) w =
    set_key-IsWithin section (strip key) (strip val) cfg w

stripped_line-IsWithin :
    (line : Bytes) (state : Bytes × TetherConfig)
    → IsWithin state.1
    → IsWithin (stripped_line line state).1
unfolding stripped_line
stripped_line-IsWithin [] state w = w
stripped_line-IsWithin (b ∷ bs) state w = elim (Bool-cases ((b == 35) || (b == 59))) [
  | inl comment ↦ rw comment w
  | inr c ↦ elim (Bool-cases (b == 91)) [
    | inl header ↦ rw (c, header) (section_line-IsWithin (split_at_byte 93 bs) state w)
    | inr d ↦ rw (c, d) (key_line-IsWithin (split_at_byte 61 (b ∷ bs)) state w)
  ]
]

load_lines-IsWithin :
    (lines : List Bytes) (state : Bytes × TetherConfig)
    → IsWithin state.1
    → IsWithin (load_lines lines state).1
unfolding load_lines load_line
load_lines-IsWithin [] state w = w
load_lines-IsWithin (line ∷ lines) state w =
    load_lines-IsWithin lines (load_line line state)
      (stripped_line-IsWithin (strip (c_string line)) state w)

config_load_file-IsWithin :
    (file : Option Bytes) (cfg : TetherConfig)
    → IsWithin cfg
    → IsWithin (config_load_file file cfg).1
unfolding config_load_file
config_load_file-IsWithin none cfg w = w
config_load_file-IsWithin (some text) cfg w = load_lines-IsWithin (fgets_lines 255 text) ([], cfg) w

-- What a result says of the configuration that comes with it.
abbrev pub Returns : (TetherConfig → Type 0) → CliResult → Type 0
Returns P (returned ret cfg) = P cfg
Returns P exited = Unit {0}

abbrev pub Goes : (TetherConfig → Type 0) → CliResult ⊎ TetherConfig → Type 0
Goes P (inl result) = Returns P result
Goes P (inr cfg) = P cfg

apply_cli_option-IsWithin :
    (files : Bytes → Option Bytes) (o : CliOption) (cfg : TetherConfig)
    → IsWithin cfg
    → Goes IsWithin (apply_cli_option files o cfg)
unfolding apply_cli_option
apply_cli_option-IsWithin files opt_no_route cfg w = ground arith
apply_cli_option-IsWithin files opt_no_dns cfg w = ground arith
apply_cli_option-IsWithin files (opt_static arg) cfg w = ground (arith, length-take 15 arg)
apply_cli_option-IsWithin files (opt_gateway arg) cfg w = ground (arith, length-take 15 arg)
apply_cli_option-IsWithin files (opt_netmask arg) cfg w = ground (arith, length-take 15 arg)
apply_cli_option-IsWithin files opt_verbose cfg w = ground arith
apply_cli_option-IsWithin files (opt_ui_pid arg) cfg w = go (strtol_positive (skip_space arg))
  where
    go :
        (r : Option ℕ)
        → Goes IsWithin (elim r [
          | none ↦ inl (returned minus_one cfg)
          | some val ↦ inr (record cfg { ui_pid = to_int val })
        ])
    go none = w
    go (some val) = ground arith
apply_cli_option-IsWithin files (opt_config arg) cfg w =
    let loaded = config_load_file-IsWithin (files arg) cfg w in
    elim (Bool-cases (is_negative (config_load_file (files arg) cfg).0)) [
      | inl missing ↦ rw missing loaded
      | inr found ↦ rw found loaded
    ]
apply_cli_option-IsWithin files opt_version cfg w = tt
apply_cli_option-IsWithin files opt_watch cfg w = ground arith
apply_cli_option-IsWithin files opt_help cfg w = w
apply_cli_option-IsWithin files opt_unknown cfg w = w

config_apply_cli-IsWithin :
    (files : Bytes → Option Bytes) (os : List CliOption) (cfg : TetherConfig)
    → IsWithin cfg
    → Returns IsWithin (config_apply_cli files os cfg)
unfolding config_apply_cli
config_apply_cli-IsWithin files [] cfg w = w
config_apply_cli-IsWithin files (o ∷ os) cfg w =
    go (apply_cli_option files o cfg) (apply_cli_option-IsWithin files o cfg w)
      (λ cfg' w'. config_apply_cli-IsWithin files os cfg' w')
  where
    go :
        (r : CliResult ⊎ TetherConfig)
        → Goes IsWithin r
        → ((cfg' : TetherConfig)
            → IsWithin cfg'
            → Returns IsWithin (config_apply_cli files os cfg'))
        → Returns IsWithin
            (elim r [ inl result ↦ result | inr cfg' ↦ config_apply_cli files os cfg' ])
    go (inl result) g ih = g
    go (inr cfg') g ih = ih cfg' g

config_load_default-IsWithin :
    (files : Bytes → Option Bytes) (home pw_dir : Option Bytes) (cfg : TetherConfig)
    → IsWithin cfg
    → IsWithin (config_load_default files home pw_dir cfg).1
unfolding config_load_default config_default_path
config_load_default-IsWithin files none none cfg w = w
config_load_default-IsWithin files none (some dir) cfg w =
    config_load_file-IsWithin (files (take 511 (dir ++ below_home))) cfg w
config_load_default-IsWithin files (some home) pw_dir cfg w =
    config_load_file-IsWithin (files (take 511 (home ++ below_home))) cfg w

-- What is so of the configuration that `main` goes on with, where the user is root.
abbrev pub Starts : (TetherConfig → Type 0) → ℕ → MainStart → Type 0
Starts P uid (exits status) = status ≤ 1
Starts P uid (goes_on cfg) = P cfg × (uid ≡ 0)

start_result-IsWithin :
    (r : CliResult) (uid : ℕ) → Returns IsWithin r → Starts IsWithin uid (start_result r uid)
unfolding start_result
start_result-IsWithin exited uid w = omega arith
start_result-IsWithin (returned (negsuc n) cfg) uid w = omega arith
start_result-IsWithin (returned (pos n) cfg) uid w = elim (Bool-cases (n == 1)) [
  | inl helped ↦ rw helped (omega arith)
  | inr parsed ↦ elim (Bool-cases (uid == 0)) [
    | inl root ↦ rw (parsed, root) (w, ground arith)
    | inr user ↦ rw (parsed, user) (omega arith)
  ]
]

-- Whatever the files hold, wherever the default file is and whatever options the command line has, each string
-- of the configuration fits its array of 16 bytes with its NUL, from the defaults on, also where an option is
-- refused half-way; and `main` either returns 0 or 1, or is run by root and goes on with such a configuration.
pub config_strings_fit :
    (files : Bytes → Option Bytes) (home pw_dir : Option Bytes) (os : List CliOption) (uid : ℕ)
    → let cfg = (config_load_default files home pw_dir config_init_defaults).1 in
      IsWithin cfg
      × Returns IsWithin (config_apply_cli files os cfg)
      × Starts IsWithin uid (main_start files home pw_dir os uid)
unfolding main_start
config_strings_fit files home pw_dir os uid =
    let loaded =
      config_load_default-IsWithin files home pw_dir config_init_defaults
        config_init_defaults-IsWithin in
    let applied = config_apply_cli-IsWithin files os _ loaded in
    (loaded, applied, start_result-IsWithin _ uid applied)
