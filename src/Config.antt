-- ===== src/Config.antt =====
-- src/config.c: the configuration, its defaults and the values that it is read from. The INI reader is
-- File, the command line Cli, and the beginning of `main` is in Start. A C string is the list of its bytes
-- without the NUL, and a file the list of its bytes.
pub mod File
pub mod Cli
pub mod Start
pub mod Fits
pub mod Reading
pub mod Printed
mod Runs
use android_usb_tether_macos.Ipc.{c_string}
use android_usb_tether_macos.Wire.{Bytes}
use android_usb_tether_macos.Prelude.{
  ℕ, [], ◌∷◌, none, some, List, Bool, ℤ, if◌then◌else◌, Option, false, leb, ◌&&◌, map, true, take,
  pos, minus_one, ◌==◌, ◌⊎◌, ◌||◌, inr, inl, ◌-◌, min, ◌+◌, ◌*◌, to_int, ◌^◌, is_negative,
}

-- The levels of include/log.h.
pub data LogLevel : Type 0 where
  log_debug : LogLevel
  log_info : LogLevel
  log_warn : LogLevel
  log_error : LogLevel

-- `tether_config_t`; the strings are arrays of 16 bytes.
pub record TetherConfig : Type 0 where
  pub no_route : Bool
  pub no_dns : Bool
  pub static_ip : Bytes
  pub gateway : Bytes
  pub netmask : Bytes
  pub log_level : LogLevel
  pub verbose : Bool
  pub protocol : Bytes
  pub ui_pid : ℤ
  pub watch_mode : Bool

-- `strlcpy(dst, src, size)`: what is stored in an array of `size` bytes, without the NUL.
abbrev pub strlcpy : Bytes → ℕ → Bytes
strlcpy src size = take (size - 1) src

-- "255.255.255.0" and "rndis".
abbrev pub default_netmask : Bytes
default_netmask = 50 ∷ 53 ∷ 53 ∷ 46 ∷ 50 ∷ 53 ∷ 53 ∷ 46 ∷ 50 ∷ 53 ∷ 53 ∷ 46 ∷ 48 ∷ []

abbrev pub rndis_name : Bytes
rndis_name = 114 ∷ 110 ∷ 100 ∷ 105 ∷ 115 ∷ []

unfoldable pub config_init_defaults : TetherConfig
config_init_defaults = record {
  no_route = false;
  no_dns = false;
  static_ip = [];
  gateway = [];
  netmask = strlcpy default_netmask 16;
  log_level = log_info;
  verbose = false;
  protocol = strlcpy rndis_name 16;
  ui_pid = pos 0;
  watch_mode = false;
}

-- `isspace` in the C locale.
abbrev pub isspace : ℕ → Bool
isspace b = (b == 32) || (leb 9 b && leb b 13)

abbrev pub skip_space : Bytes → Bytes
skip_space [] = []
skip_space (b ∷ bs) = if isspace b then skip_space bs else b ∷ bs

-- The bytes without the white space at their end.
abbrev pub trim_end : Bytes → Bytes
trim_end [] = []
trim_end (b ∷ bs) = elim (trim_end bs) [
  | [] ↦ if isspace b then [] else b ∷ []
  | x ∷ xs ↦ b ∷ x ∷ xs
]

-- `strip`. The loop at the end stops at the first byte, which is no white space after the first loop.
unfoldable pub strip : Bytes → Bytes
strip s = trim_end (skip_space s)

abbrev pub to_lower : ℕ → ℕ
to_lower b = if leb 65 b && leb b 90 then b + 32 else b

-- `strcmp(a, b) == 0`, and `strcasecmp(a, word) == 0` for a word in lower case.
abbrev pub same : Bytes → Bytes → Bool
same [] [] = true
same [] (y ∷ ys) = false
same (x ∷ xs) [] = false
same (x ∷ xs) (y ∷ ys) = (x == y) && same xs ys

abbrev pub is_word : Bytes → Bytes → Bool
is_word word val = same (map to_lower val) word

-- "true", "yes", "1" and "on".
unfoldable pub parse_bool : Bytes → Bool
parse_bool val =
    is_word (116 ∷ 114 ∷ 117 ∷ 101 ∷ []) val
    || (is_word (121 ∷ 101 ∷ 115 ∷ []) val
        || (is_word (49 ∷ []) val || is_word (111 ∷ 110 ∷ []) val))

-- "debug", "info", "warn", "warning" and "error".
unfoldable pub parse_log_level : Bytes → LogLevel
parse_log_level val =
    if is_word (100 ∷ 101 ∷ 98 ∷ 117 ∷ 103 ∷ []) val
    then log_debug
    else if is_word (105 ∷ 110 ∷ 102 ∷ 111 ∷ []) val
    then log_info
    else if is_word (119 ∷ 97 ∷ 114 ∷ 110 ∷ []) val
        || is_word (119 ∷ 97 ∷ 114 ∷ 110 ∷ 105 ∷ 110 ∷ 103 ∷ []) val
    then log_warn
    else if is_word (101 ∷ 114 ∷ 114 ∷ 111 ∷ 114 ∷ []) val
    then log_error
    else log_info
