-- ===== src/Compat/Runs.antt =====
-- src/compat.c on concrete answers of the system.
use android_usb_tether_macos.Compat.{
  compat_macos_name, Sysctl, VersionCache, MacosVersion, compat_macos_version, detect, sonoma,
  from_darwin, name_of,
}
use android_usb_tether_macos.Prelude.{[], ◌∷◌, none, some, false, pos, ◌≡◌, refl}

abbrev fresh : VersionCache
fresh = record { detected = false; version = record { major = 0; minor = pos 0; patch = 0 } }

-- Darwin 23.5.0 on a system without the first sysctl, and a system that says 14.5.
abbrev darwin : Sysctl
darwin = record { product_version = none; os_release = some (23 ∷ 5 ∷ 0 ∷ []) }

abbrev sonoma_system : Sysctl
sonoma_system = record { product_version = some (14 ∷ 5 ∷ []); os_release = none }

darwin_name : (compat_macos_name darwin fresh).0 ≡ sonoma
unfolding compat_macos_name compat_macos_version detect from_darwin name_of
darwin_name = refl

abbrev monterey_version : MacosVersion
monterey_version = record { major = 12; minor = pos 6; patch = 1 }
