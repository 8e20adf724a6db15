-- ===== src/Compat/Versions.antt =====
-- The order that `compat_macos_at_least` tests, and the names along it.
use android_usb_tether_macos.Compat.{
  name_of, compat_macos_at_least, MacosVersion, compat_macos_version, at_least, compat_macos_name,
  Sysctl, sequoia, VersionCache, sonoma, ventura, monterey, big_sur, catalina, mojave, MacosName,
}
use android_usb_tether_macos.Prelude.{
  ℕ, ◌<◌, ◌⊎◌, ◌≡◌, ◌≤◌, ◌↔◌, true, ap, Bool-cases, ℤ, inl, pos, inr, arith, negsuc, refl,
}

abbrev pub AtMost : ℕ → ℤ → Type 0
AtMost k (pos n) = k ≤ n
AtMost k (negsuc n) = ⊥

-- Versions in their order, by major and then by minor number.
abbrev pub Reaches : ℕ → ℤ → ℕ → ℕ → Type 0
Reaches major minor major' minor' = (major' < major) ⊎ ((major' ≡ major) × AtMost minor' minor)

at_least_lem :
    (major : ℕ) (minor : ℤ) (patch major' minor' : ℕ)
    → (at_least (record { major = major; minor = minor; patch = patch }) major' minor' ≡ true)
      ↔ Reaches major minor major' minor'
unfolding at_least
at_least_lem major (pos m) patch major' minor' = (λ e. ground arith, λ h. ground arith)
at_least_lem major (negsuc m) patch major' minor' = (λ e. ground arith, λ h. ground arith)

-- A second look at the version.
again :
    (sys later : Sysctl) (cache : VersionCache)
    → let (v, cache') = compat_macos_version sys cache in
      compat_macos_version later cache' ≡ (v, cache')
unfolding compat_macos_version
again sys later cache = elim (Bool-cases cache.detected) [
  | inl known ↦ rw known refl
  | inr fresh ↦ rw fresh refl
]

-- The version test answers from the order of versions, and the answer is settled by the first call: a
-- later call of any of the three functions sees the same version, whatever the system then says.
pub compat_macos_at_least_lem :
    (sys later : Sysctl) (major minor major' minor' : ℕ) (cache : VersionCache)
    → let (v, _) = compat_macos_version sys cache in
      let (answer, cache') = compat_macos_at_least sys major minor cache in
      ((answer ≡ true) ↔ Reaches v.major v.minor major minor)
      × (compat_macos_version later cache' ≡ (v, cache'))
      × (compat_macos_at_least later major' minor' cache'
          ≡ compat_macos_at_least sys major' minor' cache)
      × (compat_macos_name later cache' ≡ compat_macos_name sys cache)
unfolding compat_macos_at_least compat_macos_name
compat_macos_at_least_lem sys later major minor major' minor' cache =
    let v = (compat_macos_version sys cache).0 in
    let same = again sys later cache in
    (
      at_least_lem v.major v.minor v.patch major minor,
      same,
      ap (λ t. (at_least t.0 major' minor', t.1)) same,
      ap (λ t. (name_of t.0, t.1)) same,
    )

-- A name stands for the versions that reach one release and not the next.
abbrev pub Named : MacosVersion → MacosName → ℕ × ℕ → ℕ × ℕ → Type 0
Named v name (major, minor) (major', minor') =
    (name_of v ≡ name)
    ↔ (Reaches v.major v.minor major minor × (¬ Reaches v.major v.minor major' minor'))

named :
    (major m patch : ℕ)
    → let v : MacosVersion = record { major = major; minor = pos m; patch = patch } in
      Named v sequoia (15, 0) (26, 0)
      × Named v sonoma (14, 0) (15, 0)
      × Named v ventura (13, 0) (14, 0)
      × Named v monterey (12, 0) (13, 0)
      × Named v big_sur (11, 0) (12, 0)
      × Named v catalina (10, 15) (11, 0)
      × Named v mojave (10, 14) (10, 15)
unfolding name_of
named major m patch = ground arith

-- A version whose minor number is not negative has the name of a release exactly when it reaches that
-- release but not the next: the name and the version test do not disagree.
pub name_of_lem :
    (v : MacosVersion) (m : ℕ)
    → v.minor ≡ pos m
    → Named v sequoia (15, 0) (26, 0)
      × Named v sonoma (14, 0) (15, 0)
      × Named v ventura (13, 0) (14, 0)
      × Named v monterey (12, 0) (13, 0)
      × Named v big_sur (11, 0) (12, 0)
      × Named v catalina (10, 15) (11, 0)
      × Named v mojave (10, 14) (10, 15)
name_of_lem v m e = rw e (named v.major m v.patch)
