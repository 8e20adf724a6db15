-- ===== src/Utun.antt =====
-- src/utun.c and include/utun.h: the utun interface and the settings of the network around it. The shell
-- commands are data; what system calls give is an argument.
mod Runs
use android_usb_tether_macos.Wire.{Bytes}
use android_usb_tether_macos.Prelude.{
  ℕ, ◌∷◌, [], ◌++◌, Bool, true, false, pos, negsuc, none, some, suc, zero, Option, ℤ, List, to_int,
  if◌then◌else◌, minus_one,
}

-- What the commands set and remove: the keys of configd, the file that the DNS settings are saved in, and the
-- two halves of the default route.
pub data Setting : Type 0 where
  service_ipv4 : Setting
  service_interface : Setting
  service_dns : Setting
  global_dns : Setting
  dns_backup : Setting
  low_route : Setting
  high_route : Setting

-- A command of `system`, or the `unlink` of `utun_restore_dns`; the values are what the text is made of.
pub data Command : Type 0 where
  interface_up : ℕ → Bytes → Bytes → Bytes → Command
  mtu_set : ℕ → ℕ → Command
  value_set : Setting → List Bytes → Command
  removed : Setting → Command
  cache_flushed : Command

-- `utun_t`; its name is "utun" and the unit.
pub record Utun : Type 0 where
  pub fd : Option ℕ
  pub unit : ℕ

abbrev pub utun_mtu : ℕ
utun_mtu = 1500

-- The first of `n` units from `unit` on that can be connected to.
unfoldable pub connect_from : ℕ → ℕ → (ℕ → Bool) → Option ℕ
connect_from zero unit connects = none
connect_from (suc n) unit connects =
    let rest = connect_from n (suc unit) connects in if connects unit then some unit else rest

-- The interface, and the descriptors that are closed. `socket` is the descriptor or a failure, `has_info` and
-- `connects` tell whether `ioctl` and `connect` succeed.
unfoldable pub utun_create : Option ℕ → Bool → (ℕ → Bool) → Option Utun × List ℕ
utun_create none has_info connects = (none, [])
utun_create (some fd) has_info connects =
    if has_info
    then elim (connect_from 256 0 connects) [
      | none ↦ (none, fd ∷ [])
      | some unit ↦ (some (record { fd = some fd; unit = unit }), [])
    ]
    else (none, fd ∷ [])

-- What `read` and `write` give: a number of bytes, EAGAIN or EWOULDBLOCK, or another error.
pub data IoResult : Type 0 where
  moved : ℕ → IoResult
  would_wait : IoResult
  io_failed : IoResult

unfoldable pub utun_read : IoResult → ℤ
utun_read (moved n) = to_int n
utun_read would_wait = pos 0
utun_read io_failed = minus_one

unfoldable pub utun_write : IoResult → ℤ
utun_write (moved n) = to_int n
utun_write would_wait = pos 0
utun_write io_failed = minus_one

-- `up_ok` tells whether the first command returns 0.
unfoldable pub utun_configure : Bool → Utun → Bytes → Bytes → Bytes → ℤ × List Command
utun_configure up_ok tun local_ip remote_ip netmask =
    let up = interface_up tun.unit local_ip remote_ip netmask in
    if up_ok then (pos 0, up ∷ mtu_set tun.unit utun_mtu ∷ []) else (minus_one, up ∷ [])

unfoldable pub utun_set_default_route : Bytes → List Command
utun_set_default_route gateway =
    value_set low_route (gateway ∷ []) ∷ value_set high_route (gateway ∷ []) ∷ []

unfoldable pub utun_register_service : Bytes → Bytes → Bytes → Bytes → Bytes → List Command
utun_register_service ip gateway netmask dns1 dns2 =
    value_set service_ipv4 (ip ∷ netmask ∷ gateway ∷ [])
    ∷ value_set service_interface []
    ∷ value_set service_dns (dns1 ∷ dns2 ∷ [])
    ∷ []

unfoldable pub utun_unregister_service : List Command
utun_unregister_service =
    removed service_ipv4 ∷ removed service_dns ∷ removed service_interface ∷ []

unfoldable pub utun_set_dns : Bytes → Bytes → List Command
utun_set_dns dns1 dns2 =
    value_set dns_backup [] ∷ value_set global_dns (dns1 ∷ dns2 ∷ []) ∷ cache_flushed ∷ []

-- The saved settings are not read: the key is removed, and the file after it.
unfoldable pub utun_restore_dns : List Command
utun_restore_dns = removed global_dns ∷ cache_flushed ∷ removed dns_backup ∷ []

-- The interface after the close, and what was closed.
unfoldable pub utun_close : Utun → Utun × List ℕ
utun_close tun = elim tun.fd [ none ↦ (tun, []) | some fd ↦ (record tun { fd = none }, fd ∷ []) ]
