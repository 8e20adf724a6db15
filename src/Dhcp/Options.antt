-- ===== src/Dhcp/Options.antt =====
-- src/dhcp.c, `dhcp_parse_options`: the loop over the options of an offer or acknowledgement. `opts` is
-- the memory from the options on and `len` the length that the caller states. An address is the
-- `uint32_t` whose memory image was copied, 0 where no option set it.
pub mod Encoded
pub mod Reads
use android_usb_tether_macos.Wire.{Bytes, byte, le32_at}
use android_usb_tether_macos.Prelude.{
  ℕ, ◌+◌, ◌%◌, if◌then◌else◌, Option, ◌^◌, none, ◌==◌, suc, leb, drop, not, ltb, some, zero,
}

pub record Addrs : Type 0 where
  pub gateway : ℕ
  pub netmask : ℕ
  pub dns1 : ℕ
  pub dns2 : ℕ

-- `i + n` in `size_t`.
abbrev pub add_size : ℕ → ℕ → ℕ
add_size a b = (a + b) % 2 ^ 64

abbrev pub opt_netmask : ℕ
opt_netmask = 1

abbrev pub opt_router : ℕ
opt_router = 3

abbrev pub opt_dns : ℕ
opt_dns = 6

-- The `switch`: `value` is the memory from `opts[i]` on.
unfoldable pub apply_option : ℕ → ℕ → Bytes → Addrs → Addrs
apply_option opt olen value addrs =
    if opt == opt_netmask
    then (if leb 4 olen then record addrs { netmask = le32_at value 0 } else addrs)
    else if opt == opt_router
    then (if leb 4 olen then record addrs { gateway = le32_at value 0 } else addrs)
    else if opt == opt_dns
    then (let first = if leb 4 olen then record addrs { dns1 = le32_at value 0 } else addrs in
        if leb 8 olen then record first { dns2 = le32_at value 4 } else first)
    else addrs

-- One round of the loop at index `i`: the index and addresses after it, or `none` where it ends.
unfoldable pub option_round : Bytes → ℕ → ℕ → Addrs → Option (ℕ × Addrs)
option_round opts len i addrs =
    let opt = byte opts i in
    let olen = byte opts (i + 1) in
    if not (ltb i len)
    then none
    else if opt == 0xFF
    then none
    else if opt == 0
    then some (i + 1, addrs)
    else if leb len (i + 1)
    then none
    else if ltb len (add_size (i + 2) olen)
    then none
    else some (add_size (i + 2) olen, apply_option opt olen (drop (i + 2) opts) addrs)

-- The loop from index `i`; `none` is no result of the C function, the fuel ran out.
unfoldable pub parse_options_from : ℕ → Bytes → ℕ → ℕ → Addrs → Option Addrs
parse_options_from zero opts len i addrs = none
parse_options_from (suc fuel) opts len i addrs = elim (option_round opts len i addrs) [
  | none ↦ some addrs
  | some (j, addrs') ↦ parse_options_from fuel opts len j addrs'
]

-- Every round takes a byte at least: `Reads` shows that the fuel is enough.
unfoldable pub dhcp_parse_options : Bytes → ℕ → Addrs → Option Addrs
dhcp_parse_options opts len addrs = parse_options_from (len + 1) opts len 0 addrs
