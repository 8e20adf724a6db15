-- ===== src/Compat.antt =====
-- src/compat.c: which macOS this is. The two sysctl calls are an argument: the numbers that sscanf takes
-- from the string, or `none` where the call fails. The cached version is the state.
pub mod Versions
mod Runs
use android_usb_tether_macos.Prelude.{
  ℕ, [], ◌∷◌, none, some, List, Option, if◌then◌else◌, Bool, leb, ltb, true, ◌==◌, ◌-◌, ◌&&◌, ℤ,
  pos, negsuc, false,
}

-- `macos_version_t`
pub record MacosVersion : Type 0 where
  pub major : ℕ
  pub minor : ℤ
  pub patch : ℕ

-- `g_version_detected` and `g_version`.
pub record VersionCache : Type 0 where
  pub detected : Bool
  pub version : MacosVersion

-- The answers of kern.osproductversion and kern.osrelease.
pub record Sysctl : Type 0 where
  pub product_version : Option (List ℕ)
  pub os_release : Option (List ℕ)

-- `sscanf` stores the numbers that it finds and leaves the other fields alone.
abbrev pub scan_version : List ℕ → MacosVersion → MacosVersion
scan_version [] v = v
scan_version (a ∷ []) v = record v { major = a }
scan_version (a ∷ b ∷ []) v = record v { major = a; minor = pos b }
scan_version (a ∷ b ∷ c ∷ rest) v = record v { major = a; minor = pos b; patch = c }

abbrev pub first_number : List ℕ → ℕ
first_number [] = 0
first_number (a ∷ rest) = a

-- `darwin_major - 4`, negative below 4, as for a string in which sscanf finds no number.
abbrev pub minus_four : ℕ → ℤ
minus_four n = if leb 4 n then pos (n - 4) else negsuc (3 - n)

-- The version that a Darwin version stands for.
unfoldable pub from_darwin : ℕ → MacosVersion → MacosVersion
from_darwin darwin_major v =
    if leb 20 darwin_major
    then record v { major = darwin_major - 9; minor = pos 0 }
    else record v { major = 10; minor = minus_four darwin_major }

-- The version as the first call finds it.
unfoldable pub detect : Option (List ℕ) → Option (List ℕ) → MacosVersion → MacosVersion
detect (some numbers) os_release v = scan_version numbers v
detect none (some numbers) v = from_darwin (first_number numbers) v
detect none none v = v

unfoldable pub compat_macos_version : Sysctl → VersionCache → MacosVersion × VersionCache
compat_macos_version sys cache =
    if cache.detected
    then (cache.version, cache)
    else (let v = detect sys.product_version sys.os_release cache.version in
        (v, record { detected = true; version = v }))

-- `k <= n`.
abbrev pub leb_int : ℕ → ℤ → Bool
leb_int k (pos n) = leb k n
leb_int k (negsuc n) = false

unfoldable pub at_least : MacosVersion → ℕ → ℕ → Bool
at_least v major minor =
    if ltb major v.major then true else (v.major == major) && leb_int minor v.minor

unfoldable pub compat_macos_at_least : Sysctl → ℕ → ℕ → VersionCache → Bool × VersionCache
compat_macos_at_least sys major minor cache =
    let (v, cache') = compat_macos_version sys cache in (at_least v major minor, cache')

-- The strings that `compat_macos_name` returns.
pub data MacosName : Type 0 where
  future : MacosName
  sequoia : MacosName
  sonoma : MacosName
  ventura : MacosName
  monterey : MacosName
  big_sur : MacosName
  catalina : MacosName
  mojave : MacosName
  legacy : MacosName
  unknown : MacosName

unfoldable pub name_of : MacosVersion → MacosName
name_of v =
    if leb 26 v.major
    then future
    else if leb 15 v.major
    then sequoia
    else if leb 14 v.major
    then sonoma
    else if leb 13 v.major
    then ventura
    else if leb 12 v.major
    then monterey
    else if leb 11 v.major
    then big_sur
    else if v.major == 10
    then (if leb_int 15 v.minor then catalina else if leb_int 14 v.minor then mojave else legacy)
    else unknown

unfoldable pub compat_macos_name : Sysctl → VersionCache → MacosName × VersionCache
compat_macos_name sys cache =
    let (v, cache') = compat_macos_version sys cache in (name_of v, cache')
