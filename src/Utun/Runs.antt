-- ===== src/Utun/Runs.antt =====
-- src/utun.c: the search for a free unit.
use android_usb_tether_macos.Utun.{utun_create, connect_from}
use android_usb_tether_macos.Prelude.{◌∷◌, [], true, false, none, some, ◌≡◌, refl, leb}

-- The first two units are taken.
third_unit :
    utun_create (some 7) true (λ unit. leb 2 unit) ≡ (some (record { fd = some 7; unit = 2 }), [])
unfolding utun_create connect_from
third_unit = refl

no_unit : utun_create (some 7) true (λ unit. false) ≡ (none, 7 ∷ [])
unfolding utun_create connect_from
no_unit = refl
