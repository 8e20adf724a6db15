-- ===== src/Config/File.antt =====
-- src/config.c, `config_load_file`: the lines of an INI file.
use android_usb_tether_macos.Ipc.{c_string}
use android_usb_tether_macos.Config.{
  TetherConfig, strip, same, parse_bool, strlcpy, parse_log_level,
}
use android_usb_tether_macos.Wire.{Bytes}
use android_usb_tether_macos.Prelude.{
  ℕ, [], ◌∷◌, none, some, true, false, List, Option, if◌then◌else◌, Bool, ℤ, ◌==◌, ◌||◌, minus_one,
  pos, leb, ◌&&◌, ◌-◌,
}

-- `strchr`: the bytes before the first `c` and after it.
abbrev pub split_at_byte : ℕ → Bytes → Option (Bytes × Bytes)
split_at_byte c [] = none
split_at_byte c (b ∷ bs) =
    if b == c
    then some ([], bs)
    else elim (split_at_byte c bs) [ none ↦ none | some (before, after) ↦ some (b ∷ before, after) ]

-- The names of the sections and keys.
abbrev pub network_name : Bytes
network_name = 110 ∷ 101 ∷ 116 ∷ 119 ∷ 111 ∷ 114 ∷ 107 ∷ []

abbrev pub logging_name : Bytes
logging_name = 108 ∷ 111 ∷ 103 ∷ 103 ∷ 105 ∷ 110 ∷ 103 ∷ []

abbrev pub protocol_name : Bytes
protocol_name = 112 ∷ 114 ∷ 111 ∷ 116 ∷ 111 ∷ 99 ∷ 111 ∷ 108 ∷ []

abbrev pub no_route_key : Bytes
no_route_key = 110 ∷ 111 ∷ 95 ∷ 114 ∷ 111 ∷ 117 ∷ 116 ∷ 101 ∷ []

abbrev pub no_dns_key : Bytes
no_dns_key = 110 ∷ 111 ∷ 95 ∷ 100 ∷ 110 ∷ 115 ∷ []

abbrev pub static_ip_key : Bytes
static_ip_key = 115 ∷ 116 ∷ 97 ∷ 116 ∷ 105 ∷ 99 ∷ 95 ∷ 105 ∷ 112 ∷ []

abbrev pub gateway_key : Bytes
gateway_key = 103 ∷ 97 ∷ 116 ∷ 101 ∷ 119 ∷ 97 ∷ 121 ∷ []

abbrev pub netmask_key : Bytes
netmask_key = 110 ∷ 101 ∷ 116 ∷ 109 ∷ 97 ∷ 115 ∷ 107 ∷ []

abbrev pub level_key : Bytes
level_key = 108 ∷ 101 ∷ 118 ∷ 101 ∷ 108 ∷ []

abbrev pub driver_key : Bytes
driver_key = 100 ∷ 114 ∷ 105 ∷ 118 ∷ 101 ∷ 114 ∷ []

abbrev pub not_empty : Bytes → Bool
not_empty [] = false
not_empty (b ∷ bs) = true

-- One `key = value` in a section.
unfoldable pub set_key : Bytes → Bytes → Bytes → TetherConfig → TetherConfig
set_key section key val cfg =
    if same section network_name
    then (if same key no_route_key
        then record cfg { no_route = parse_bool val }
        else if same key no_dns_key
        then record cfg { no_dns = parse_bool val }
        else if same key static_ip_key && not_empty val
        then record cfg { static_ip = strlcpy val 16 }
        else if same key gateway_key && not_empty val
        then record cfg { gateway = strlcpy val 16 }
        else if same key netmask_key && not_empty val
        then record cfg { netmask = strlcpy val 16 }
        else cfg)
    else if same section logging_name
    then (if same key level_key then record cfg { log_level = parse_log_level val } else cfg)
    else if same section protocol_name
    then (if same key driver_key && not_empty val
        then record cfg { protocol = strlcpy val 16 }
        else cfg)
    else cfg

-- A section header, split at its bracket.
unfoldable pub section_line : Option (Bytes × Bytes) → Bytes × TetherConfig → Bytes × TetherConfig
section_line none state = state
section_line (some (name, after)) (section, cfg) = (strlcpy name 32, cfg)

-- A key and its value, split at the equals sign.
unfoldable pub key_line : Option (Bytes × Bytes) → Bytes × TetherConfig → Bytes × TetherConfig
key_line none state = state
key_line (some (key, val)) (section, cfg) = (section, set_key section (strip key) (strip val) cfg)

-- What a line makes of the section and the configuration, once it is stripped: the marks of a comment
-- are `#` and `;`.
unfoldable pub stripped_line : Bytes → Bytes × TetherConfig → Bytes × TetherConfig
stripped_line [] state = state
stripped_line (b ∷ bs) state =
    if (b == 35) || (b == 59)
    then state
    else if b == 91
    then section_line (split_at_byte 93 bs) state
    else key_line (split_at_byte 61 (b ∷ bs)) state

-- A line as `fgets` stored it: up to the first NUL.
unfoldable pub load_line : Bytes → Bytes × TetherConfig → Bytes × TetherConfig
load_line line state = stripped_line (strip (c_string line)) state

unfoldable pub load_lines : List Bytes → Bytes × TetherConfig → Bytes × TetherConfig
load_lines [] state = state
load_lines (line ∷ lines) state = load_lines lines (load_line line state)

-- The lines that `fgets` gives for the bytes of a file, with room for `room` more bytes in the current
-- one: a line ends with its newline, or where the buffer is full.
unfoldable pub fgets_lines : ℕ → Bytes → List Bytes
fgets_lines room [] = []
fgets_lines room (b ∷ bs) =
    if (b == 10) || leb room 1
    then (b ∷ []) ∷ fgets_lines 255 bs
    else elim (fgets_lines (room - 1) bs) [ [] ↦ (b ∷ []) ∷ [] | line ∷ lines ↦ (b ∷ line) ∷ lines ]

-- `file` is what the path holds, if it can be opened.
unfoldable pub config_load_file : Option Bytes → TetherConfig → ℤ × TetherConfig
config_load_file none cfg = (minus_one, cfg)
config_load_file (some text) cfg = (pos 0, (load_lines (fgets_lines 255 text) ([], cfg)).1)
