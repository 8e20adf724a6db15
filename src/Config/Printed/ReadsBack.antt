-- ===== src/Config/Printed/ReadsBack.antt =====
-- A configuration file that is printed from settings is read back by src/config.c.
use android_usb_tether_macos.Config.Printed.{
  bool_text, level_text, Setting, header_of, key_of, IsSetting, no_route_is, value_of, line_of,
  section_of, print_settings, no_dns_is, stored, stored_all, static_ip_is, gateway_is, netmask_is,
  level_is, driver_is,
}
use mathlib.Core.List.{append_assoc}
use android_usb_tether_macos.Prelude.{
  arith, List, Bool, ◌≡◌, ◌<◌, ◌∷◌, ℕ, ◌++◌, length, refl, [], true, All, ◌≢◌, ◌≤◌, false, take,
  ◌==◌, ◌||◌, suc, leb, ap, ◌-◌, zero, ◌∙◌, some, pos, length-append,
}
use android_usb_tether_macos.Config.File.{
  set_key, load_line, fgets_lines, stripped_line, section_line, load_lines, config_load_file,
}
use android_usb_tether_macos.Config.Reading.{IsPlain, IsKey, All-map, All-append, load_line-key}
use android_usb_tether_macos.Config.{
  TetherConfig, LogLevel, log_debug, log_info, log_warn, log_error, parse_bool, parse_log_level,
  strip,
}
use android_usb_tether_macos.Wire.{Bytes}

-- `fgets` takes a line that fits its buffer whole.
fgets_lines-line :
    (line rest : Bytes) (room : ℕ)
    → All (λ b. b ≢ 10) line
    → length line < room
    → fgets_lines room (line ++ (10 ∷ rest)) ≡ (line ++ (10 ∷ [])) ∷ fgets_lines 255 rest
unfolding fgets_lines
fgets_lines-line [] rest room h fits = refl
fgets_lines-line (b ∷ line) rest room (h, hs) fits =
    let goes_on : ((b == 10) || leb room 1) ≡ false = ground arith in
    rw (goes_on, fgets_lines, fgets_lines-line line rest (room - 1) hs (omega arith)) refl

take-whole : (n : ℕ) (xs : Bytes) → length xs ≤ n → take n xs ≡ xs
take-whole zero [] h = refl
take-whole zero (x ∷ xs) h = absurd (omega arith)
take-whole (suc n) [] h = refl
take-whole (suc n) (x ∷ xs) h = ap (λ t. x ∷ t) (take-whole n xs (omega arith))

bool_text-parse : (b : Bool) → parse_bool (bool_text b) ≡ b
unfolding parse_bool
bool_text-parse true = refl
bool_text-parse false = refl

level_text-parse : (l : LogLevel) → parse_log_level (level_text l) ≡ l
unfolding parse_log_level
level_text-parse log_debug = refl
level_text-parse log_info = refl
level_text-parse log_warn = refl
level_text-parse log_error = refl

value_of-IsPlain :
    (s : Setting) → IsSetting s → (0 < length (value_of s)) × All IsPlain (value_of s)
value_of-IsPlain (no_route_is true) h = (omega arith, ground arith)
value_of-IsPlain (no_route_is false) h = (omega arith, ground arith)
value_of-IsPlain (no_dns_is true) h = (omega arith, ground arith)
value_of-IsPlain (no_dns_is false) h = (omega arith, ground arith)
value_of-IsPlain (static_ip_is val) h = (h.0, h.2)
value_of-IsPlain (gateway_is val) h = (h.0, h.2)
value_of-IsPlain (netmask_is val) h = (h.0, h.2)
value_of-IsPlain (level_is log_debug) h = (omega arith, ground arith)
value_of-IsPlain (level_is log_info) h = (omega arith, ground arith)
value_of-IsPlain (level_is log_warn) h = (omega arith, ground arith)
value_of-IsPlain (level_is log_error) h = (omega arith, ground arith)
value_of-IsPlain (driver_is val) h = (h.0, h.2)

key_of-IsKey : (s : Setting) → IsKey (key_of s)
key_of-IsKey (no_route_is b) = ground arith
key_of-IsKey (no_dns_is b) = ground arith
key_of-IsKey (static_ip_is val) = ground arith
key_of-IsKey (gateway_is val) = ground arith
key_of-IsKey (netmask_is val) = ground arith
key_of-IsKey (level_is l) = ground arith
key_of-IsKey (driver_is val) = ground arith

-- The code's switch over the names of sections and keys does what the setting says.
set_key-stored :
    (s : Setting) (cfg : TetherConfig)
    → IsSetting s
    → set_key (section_of s) (key_of s) (value_of s) cfg ≡ stored s cfg
unfolding set_key
set_key-stored (no_route_is b) cfg h = rw (bool_text-parse b) refl
set_key-stored (no_dns_is b) cfg h = rw (bool_text-parse b) refl
set_key-stored (static_ip_is (b ∷ bs)) cfg h = rw (take-whole 15 (b ∷ bs) (omega (arith, h.1))) refl
set_key-stored (static_ip_is []) cfg h = absurd (omega (arith, h.0))
set_key-stored (gateway_is (b ∷ bs)) cfg h = rw (take-whole 15 (b ∷ bs) (omega (arith, h.1))) refl
set_key-stored (gateway_is []) cfg h = absurd (omega (arith, h.0))
set_key-stored (netmask_is (b ∷ bs)) cfg h = rw (take-whole 15 (b ∷ bs) (omega (arith, h.1))) refl
set_key-stored (netmask_is []) cfg h = absurd (omega (arith, h.0))
set_key-stored (level_is l) cfg h = rw (level_text-parse l) refl
set_key-stored (driver_is (b ∷ bs)) cfg h = rw (take-whole 15 (b ∷ bs) (omega (arith, h.1))) refl
set_key-stored (driver_is []) cfg h = absurd (omega (arith, h.0))

load_line-header :
    (s : Setting) (state : Bytes × TetherConfig)
    → load_line (header_of s ++ (10 ∷ [])) state ≡ (section_of s, state.1)
unfolding load_line stripped_line section_line strip
load_line-header (no_route_is b) state = refl
load_line-header (no_dns_is b) state = refl
load_line-header (static_ip_is val) state = refl
load_line-header (gateway_is val) state = refl
load_line-header (netmask_is val) state = refl
load_line-header (level_is l) state = refl
load_line-header (driver_is val) state = refl

header_of_lem : (s : Setting) → All (λ b. b ≢ 10) (header_of s) × (length (header_of s) < 255)
header_of_lem (no_route_is b) = (ground arith, omega arith)
header_of_lem (no_dns_is b) = (ground arith, omega arith)
header_of_lem (static_ip_is val) = (ground arith, omega arith)
header_of_lem (gateway_is val) = (ground arith, omega arith)
header_of_lem (netmask_is val) = (ground arith, omega arith)
header_of_lem (level_is l) = (ground arith, omega arith)
header_of_lem (driver_is val) = (ground arith, omega arith)

key_of_lem : (s : Setting) → All (λ b. b ≢ 10) (key_of s) × (length (key_of s) < 10)
key_of_lem (no_route_is b) = (ground arith, omega arith)
key_of_lem (no_dns_is b) = (ground arith, omega arith)
key_of_lem (static_ip_is val) = (ground arith, omega arith)
key_of_lem (gateway_is val) = (ground arith, omega arith)
key_of_lem (netmask_is val) = (ground arith, omega arith)
key_of_lem (level_is l) = (ground arith, omega arith)
key_of_lem (driver_is val) = (ground arith, omega arith)

value_of_short : (s : Setting) → IsSetting s → length (value_of s) < 16
value_of_short (no_route_is true) h = omega arith
value_of_short (no_route_is false) h = omega arith
value_of_short (no_dns_is true) h = omega arith
value_of_short (no_dns_is false) h = omega arith
value_of_short (static_ip_is val) h = h.1
value_of_short (gateway_is val) h = h.1
value_of_short (netmask_is val) h = h.1
value_of_short (level_is log_debug) h = omega arith
value_of_short (level_is log_info) h = omega arith
value_of_short (level_is log_warn) h = omega arith
value_of_short (level_is log_error) h = omega arith
value_of_short (driver_is val) h = h.1

plain_line : (b : ℕ) → IsPlain b → b ≢ 10
plain_line b h = ground arith

line_of_lem :
    (s : Setting) → IsSetting s → All (λ b. b ≢ 10) (line_of s) × (length (line_of s) < 255)
line_of_lem s h =
    let NoNewline : ℕ → Type 0 = λ b. b ≢ 10 in
    let val : Bytes = value_of s in
    let (keys, short) = key_of_lem s in
    let vals = All-map IsPlain NoNewline val plain_line (value_of-IsPlain s h).1 in
    (
      All-append NoNewline (key_of s) (32 ∷ 61 ∷ 32 ∷ val) keys
          (omega arith, (omega arith, (omega arith, vals))),
      omega (arith, length-append (key_of s) (32 ∷ 61 ∷ 32 ∷ val), value_of_short s h),
    )

load_line-setting :
    (s : Setting) (cfg : TetherConfig)
    → IsSetting s
    → load_line (line_of s ++ (10 ∷ [])) (section_of s, cfg) ≡ (section_of s, stored s cfg)
load_line-setting s cfg h =
    let (some_value, plain) = value_of-IsPlain s h in
    ap (λ t. load_line t (section_of s, cfg))
      (append_assoc (key_of s) (32 ∷ 61 ∷ 32 ∷ value_of s) (10 ∷ []))
    ∙ load_line-key (key_of s) (value_of s) (section_of s) cfg (key_of-IsKey s) some_value plain
    ∙ ap (λ t. (section_of s, t)) (set_key-stored s cfg h)

-- What stands behind a setting is read with the setting stored.
load_lines-setting :
    (s : Setting) (section rest : Bytes) (cfg : TetherConfig)
    → IsSetting s
    → load_lines (fgets_lines 255 (header_of s ++ (10 ∷ (line_of s ++ (10 ∷ rest))))) (section, cfg)
      ≡ load_lines (fgets_lines 255 rest) (section_of s, stored s cfg)
unfolding load_lines
load_lines-setting s section rest cfg h =
    let (heads, head_fits) = header_of_lem s in
    let (lines, line_fits) = line_of_lem s h in
    rw
      (
        fgets_lines-line (header_of s) (line_of s ++ (10 ∷ rest)) 255 heads head_fits,
        load_lines,
        load_line-header s (section, cfg),
        fgets_lines-line (line_of s) rest 255 lines line_fits,
        load_line-setting s cfg h,
      )
      refl

load_lines-settings :
    (ss : List Setting) (section : Bytes) (cfg : TetherConfig)
    → All IsSetting ss
    → (load_lines (fgets_lines 255 (print_settings ss)) (section, cfg)).1 ≡ stored_all ss cfg
load_lines-settings [] section cfg h = unfold load_lines fgets_lines in refl
load_lines-settings (s ∷ ss) section cfg (h, hs) =
    ap (λ t. t.1) (load_lines-setting s section (print_settings ss) cfg h)
    ∙ load_lines-settings ss (section_of s) (stored s cfg) hs

-- A file that is printed from settings, each as its section in brackets and a line `key = value`, is read back:
-- every setting is stored in its own field and whole, in the order of the file, and nothing else
-- changes. The texts are not empty, fit their arrays and have no NUL or white space.
pub config_load_file-print_settings :
    (ss : List Setting) (cfg : TetherConfig)
    → All IsSetting ss
    → config_load_file (some (print_settings ss)) cfg ≡ (pos 0, stored_all ss cfg)
unfolding config_load_file
config_load_file-print_settings ss cfg h = ap (λ t. (pos 0, t)) (load_lines-settings ss [] cfg h)
