-- ===== src/Config/Printed.antt =====
-- The text of a configuration file that is made of settings for src/config.c, and what the settings mean.
pub mod ReadsBack
use android_usb_tether_macos.Prelude.{
  arith, List, Bool, ◌≡◌, ◌<◌, ◌∷◌, ℕ, ◌++◌, length, refl, [], true, All, ◌≢◌, ◌≤◌, false, take,
  ◌==◌, ◌||◌, suc, leb, ap, ◌-◌, zero, ◌∙◌, some, pos, length-append,
}
use android_usb_tether_macos.Config.File.{
  set_key, load_line, fgets_lines, stripped_line, section_line, load_lines, config_load_file,
}
use android_usb_tether_macos.Config.Reading.{IsPlain, IsKey, All-map, All-append}
use android_usb_tether_macos.Config.{
  TetherConfig, LogLevel, log_debug, log_info, log_warn, log_error, parse_bool, parse_log_level,
  strip,
}
use android_usb_tether_macos.Wire.{Bytes}

-- A line of the file with what it means.
pub data Setting : Type 0 where
  no_route_is : Bool → Setting
  no_dns_is : Bool → Setting
  static_ip_is : Bytes → Setting
  gateway_is : Bytes → Setting
  netmask_is : Bytes → Setting
  level_is : LogLevel → Setting
  driver_is : Bytes → Setting

-- A text that an array of 16 bytes holds: not empty, without NUL and white space.
abbrev pub IsText : Bytes → Type 0
IsText val = (0 < length val) × (length val < 16) × All IsPlain val

abbrev pub IsSetting : Setting → Type 0
IsSetting (no_route_is b) = Unit {0}
IsSetting (no_dns_is b) = Unit {0}
IsSetting (static_ip_is val) = IsText val
IsSetting (gateway_is val) = IsText val
IsSetting (netmask_is val) = IsText val
IsSetting (level_is l) = Unit {0}
IsSetting (driver_is val) = IsText val

-- What it sets.
abbrev pub stored : Setting → TetherConfig → TetherConfig
stored (no_route_is b) cfg = record cfg { no_route = b }
stored (no_dns_is b) cfg = record cfg { no_dns = b }
stored (static_ip_is val) cfg = record cfg { static_ip = val }
stored (gateway_is val) cfg = record cfg { gateway = val }
stored (netmask_is val) cfg = record cfg { netmask = val }
stored (level_is l) cfg = record cfg { log_level = l }
stored (driver_is val) cfg = record cfg { protocol = val }

abbrev pub stored_all : List Setting → TetherConfig → TetherConfig
stored_all [] cfg = cfg
stored_all (s ∷ ss) cfg = stored_all ss (stored s cfg)

-- "network", "logging" and "protocol".
abbrev pub section_of : Setting → Bytes
section_of (level_is l) = 108 ∷ 111 ∷ 103 ∷ 103 ∷ 105 ∷ 110 ∷ 103 ∷ []
section_of (driver_is val) = 112 ∷ 114 ∷ 111 ∷ 116 ∷ 111 ∷ 99 ∷ 111 ∷ 108 ∷ []
section_of _ = 110 ∷ 101 ∷ 116 ∷ 119 ∷ 111 ∷ 114 ∷ 107 ∷ []

-- "no_route", "no_dns", "static_ip", "gateway", "netmask", "level" and "driver".
abbrev pub key_of : Setting → Bytes
key_of (no_route_is b) = 110 ∷ 111 ∷ 95 ∷ 114 ∷ 111 ∷ 117 ∷ 116 ∷ 101 ∷ []
key_of (no_dns_is b) = 110 ∷ 111 ∷ 95 ∷ 100 ∷ 110 ∷ 115 ∷ []
key_of (static_ip_is val) = 115 ∷ 116 ∷ 97 ∷ 116 ∷ 105 ∷ 99 ∷ 95 ∷ 105 ∷ 112 ∷ []
key_of (gateway_is val) = 103 ∷ 97 ∷ 116 ∷ 101 ∷ 119 ∷ 97 ∷ 121 ∷ []
key_of (netmask_is val) = 110 ∷ 101 ∷ 116 ∷ 109 ∷ 97 ∷ 115 ∷ 107 ∷ []
key_of (level_is l) = 108 ∷ 101 ∷ 118 ∷ 101 ∷ 108 ∷ []
key_of (driver_is val) = 100 ∷ 114 ∷ 105 ∷ 118 ∷ 101 ∷ 114 ∷ []

-- "true" and "false".
abbrev pub bool_text : Bool → Bytes
bool_text true = 116 ∷ 114 ∷ 117 ∷ 101 ∷ []
bool_text false = 102 ∷ 97 ∷ 108 ∷ 115 ∷ 101 ∷ []

-- "debug", "info", "warn" and "error".
abbrev pub level_text : LogLevel → Bytes
level_text log_debug = 100 ∷ 101 ∷ 98 ∷ 117 ∷ 103 ∷ []
level_text log_info = 105 ∷ 110 ∷ 102 ∷ 111 ∷ []
level_text log_warn = 119 ∷ 97 ∷ 114 ∷ 110 ∷ []
level_text log_error = 101 ∷ 114 ∷ 114 ∷ 111 ∷ 114 ∷ []

abbrev pub value_of : Setting → Bytes
value_of (no_route_is b) = bool_text b
value_of (no_dns_is b) = bool_text b
value_of (static_ip_is val) = val
value_of (gateway_is val) = val
value_of (netmask_is val) = val
value_of (level_is l) = level_text l
value_of (driver_is val) = val

-- The lines without their newlines: the section in brackets, and `key = value`.
abbrev pub header_of : Setting → Bytes
header_of s = 91 ∷ (section_of s ++ (93 ∷ []))

abbrev pub line_of : Setting → Bytes
line_of s = key_of s ++ (32 ∷ 61 ∷ 32 ∷ value_of s)

abbrev pub print_settings : List Setting → Bytes
print_settings [] = []
print_settings (s ∷ ss) = header_of s ++ (10 ∷ (line_of s ++ (10 ∷ print_settings ss)))
