-- ===== src/Session/Network.antt =====
-- What the sessions of src/main.c leave of the settings that src/utun.c makes.
use android_usb_tether_macos.Session.{
  Act, set_dns, set_default_route, restored_dns, registered_service, unregistered_service,
  deleted_routes,
}
use android_usb_tether_macos.Utun.{
  Setting, Command, service_ipv4, value_set, service_interface, service_dns, utun_set_dns, removed,
  utun_restore_dns, interface_up, global_dns, utun_register_service, mtu_set, dns_backup,
  utun_unregister_service, cache_flushed, low_route, high_route, utun_set_default_route,
}
use android_usb_tether_macos.Dhcp.Lease.{Lease}
use android_usb_tether_macos.Prelude.{◌∷◌, [], ◌++◌, Bool, true, false, List}

-- Which of the settings are there.
pub record Present : Type 0 where
  pub ipv4 : Bool
  pub interface : Bool
  pub dns : Bool
  pub global : Bool
  pub backup : Bool
  pub low : Bool
  pub high : Bool

abbrev pub nothing_set : Present
nothing_set = record {
  ipv4 = false;
  interface = false;
  dns = false;
  global = false;
  backup = false;
  low = false;
  high = false;
}

abbrev pub with_setting : Setting → Bool → Present → Present
with_setting service_ipv4 b p = record p { ipv4 = b }
with_setting service_interface b p = record p { interface = b }
with_setting service_dns b p = record p { dns = b }
with_setting global_dns b p = record p { global = b }
with_setting dns_backup b p = record p { backup = b }
with_setting low_route b p = record p { low = b }
with_setting high_route b p = record p { high = b }

-- What a command leaves, where it does what it says.
abbrev pub present_after : List Command → Present → Present
present_after [] p = p
present_after (value_set s values ∷ cs) p = present_after cs (with_setting s true p)
present_after (removed s ∷ cs) p = present_after cs (with_setting s false p)
present_after (interface_up unit ip gateway netmask ∷ cs) p = present_after cs p
present_after (mtu_set unit mtu ∷ cs) p = present_after cs p
present_after (cache_flushed ∷ cs) p = present_after cs p

-- The commands of an act; the service is registered with the addresses `a`.
abbrev pub commands_of : Lease → Act → List Command
commands_of a (set_dns dns1 dns2) = utun_set_dns dns1 dns2
commands_of a restored_dns = utun_restore_dns
commands_of a registered_service = utun_register_service a.ip a.gateway a.netmask a.dns1 a.dns2
commands_of a unregistered_service = utun_unregister_service
commands_of a (set_default_route gateway) = utun_set_default_route gateway
commands_of a deleted_routes = removed low_route ∷ removed high_route ∷ []
commands_of a _ = []

abbrev pub commands_of_all : Lease → List Act → List Command
commands_of_all a [] = []
commands_of_all a (act ∷ acts) = commands_of a act ++ commands_of_all a acts
