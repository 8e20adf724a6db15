-- ===== src/Dhcp/Lease.antt =====
-- include/dhcp.h and include/net_types.h: the lease, its default strings, and how src/dhcp.c fills it.
use android_usb_tether_macos.Dhcp.Options.{Addrs}
use android_usb_tether_macos.Wire.{Bytes}
use android_usb_tether_macos.Config.{strlcpy, default_netmask}
use android_usb_tether_macos.Prelude.{ℕ, ◌∷◌, [], if◌then◌else◌, ◌==◌}

-- `dhcp_lease_t`; the strings are arrays of 16 bytes.
pub record Lease : Type 0 where
  pub ip : Bytes
  pub gateway : Bytes
  pub netmask : Bytes
  pub dns1 : Bytes
  pub dns2 : Bytes

-- "192.168.42.100", "192.168.42.129", "8.8.8.8" and "8.8.4.4".
abbrev pub default_static_ip : Bytes
default_static_ip = 49 ∷ 57 ∷ 50 ∷ 46 ∷ 49 ∷ 54 ∷ 56 ∷ 46 ∷ 52 ∷ 50 ∷ 46 ∷ 49 ∷ 48 ∷ 48 ∷ []

abbrev pub default_gateway : Bytes
default_gateway = 49 ∷ 57 ∷ 50 ∷ 46 ∷ 49 ∷ 54 ∷ 56 ∷ 46 ∷ 52 ∷ 50 ∷ 46 ∷ 49 ∷ 50 ∷ 57 ∷ []

abbrev pub default_dns1 : Bytes
default_dns1 = 56 ∷ 46 ∷ 56 ∷ 46 ∷ 56 ∷ 46 ∷ 56 ∷ []

abbrev pub default_dns2 : Bytes
default_dns2 = 56 ∷ 46 ∷ 56 ∷ 46 ∷ 52 ∷ 46 ∷ 52 ∷ []

-- `inet_ntoa` is the parameter: the text of an address.
module _ (inet_ntoa : ℕ → Bytes) where
  -- A string of the lease: the address, or the default where it is 0.
  abbrev pub or_default : ℕ → Bytes → Bytes
  or_default addr dflt = if addr == 0 then strlcpy dflt 16 else strlcpy (inet_ntoa addr) 16

  unfoldable pub lease_of : ℕ → Addrs → Lease
  lease_of yiaddr addrs = record {
    ip = strlcpy (inet_ntoa yiaddr) 16;
    gateway = or_default addrs.gateway default_gateway;
    netmask = or_default addrs.netmask default_netmask;
    dns1 = or_default addrs.dns1 default_dns1;
    dns2 = or_default addrs.dns2 default_dns2;
  }
