-- ===== src/Session/Outcome.antt =====
-- The result of `run_session` of src/main.c, by which its callers try again or stop.
use android_usb_tether_macos.Session.{
  Arguments, Act, Outcomes, utun_session, choose_addresses, Lease, reconnect_if, run_session,
  driver_session, device_session, proto_rndis_create, proto_driver_validate,
}
use android_usb_tether_macos.Wire.{Bytes}
use android_usb_tether_macos.Prelude.{
  ℕ, Bool, true, false, none, some, ◌≡◌, inl, inr, Option, List, if◌then◌else◌, ◌&&◌, refl, not,
  ◌||◌, Option-cases, ◌∙◌,
}

abbrev pub is_some : Option ℕ → Bool
is_some none = false
is_some (some n) = true

-- Whether everything before the bridge succeeds.
abbrev pub gets_up : (Bytes → Option ℕ) → Arguments → Outcomes → Bool
gets_up inet_pton args o =
    o.driver_allocated
    && (o.state_allocated
        && (o.found
            && ((o.init_ok && o.mac_ok)
                && (is_some (inet_pton (choose_addresses args o.dhcp).ip)
                    && (o.utun_ok && (o.configured && true))))))

-- The result of a session that gets as far as `up` says: again, if the program runs and it did not get
-- up or lost the device.
abbrev pub again : Bool → Bool → Outcomes → ℕ
again up lost o = reconnect_if (o.g_running && (not up || lost))

and_true : (g : Bool) → reconnect_if g ≡ reconnect_if (g && true)
and_true true = refl
and_true false = refl

and_comm : (l g : Bool) → reconnect_if (l && g) ≡ reconnect_if (g && (false || l))
and_comm true true = refl
and_comm true false = refl
and_comm false true = refl
and_comm false false = refl

module _ (inet_pton : Bytes → Option ℕ) (args : Arguments) (o : Outcomes) where
  if_again :
      (b up : Bool) (x y : List Act × ℕ)
      → x.1 ≡ again up o.lost_device o
      → y.1 ≡ reconnect_if o.g_running
      → (if b then x else y).1 ≡ again (b && up) o.lost_device o
  if_again true up x y h k = h
  if_again false up x y h k = k ∙ and_true o.g_running

  utun_session_returns :
      (a : Lease)
      → (utun_session inet_pton args o a).1
        ≡ again (is_some (inet_pton a.ip) && (o.utun_ok && (o.configured && true))) o.lost_device o
  unfolding utun_session
  utun_session_returns a = elim (Option-cases (inet_pton a.ip)) [
    | inl e ↦ rw (e, utun_session) (and_true o.g_running)
    | inr (n, e) ↦
        rw (e, utun_session)
          (if_again o.utun_ok (o.configured && true) _ _
            (if_again o.configured true _ _ (and_comm o.lost_device o.g_running) refl) refl)
  ]

  driver_session_returns :
      (driver_ok state_ok : Bool)
      → (driver_session inet_pton args o (proto_rndis_create driver_ok state_ok)).1
        ≡ again
            (driver_ok
              && (state_ok
                  && (o.found
                      && ((o.init_ok && o.mac_ok)
                          && (is_some (inet_pton (choose_addresses args o.dhcp).ip)
                              && (o.utun_ok && (o.configured && true)))))))
            o.lost_device
            o
  unfolding driver_session device_session proto_rndis_create proto_driver_validate
  driver_session_returns false _ = and_true o.g_running
  driver_session_returns true false = and_true o.g_running
  driver_session_returns true true =
      if_again o.found _ _ _
        (if_again (o.init_ok && o.mac_ok) _ _ _
          (utun_session_returns (choose_addresses args o.dhcp)) refl)
        refl

-- A session returns 1, so that it is tried again, exactly while the program runs and either something before
-- the bridge failed, from the allocation of the driver to the configuration of the interface, or the device was lost;
-- a session that was ended on request returns 0.
pub run_session_returns :
    (inet_pton : Bytes → Option ℕ) (args : Arguments) (o : Outcomes)
    → (run_session inet_pton args o).1 ≡ again (gets_up inet_pton args o) o.lost_device o
unfolding run_session
run_session_returns inet_pton args o =
    driver_session_returns inet_pton args o o.driver_allocated o.state_allocated
