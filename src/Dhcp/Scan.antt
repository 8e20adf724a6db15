-- ===== src/Dhcp/Scan.antt =====
-- src/dhcp.c, `dhcp_discover`: the loops over the options of an answer that look for its message type
-- and, in an offer, for the server's address. `opts` is the memory from the options on and `opts_len`
-- the length that the caller computes.
pub mod Answers
pub mod Encoded
use android_usb_tether_macos.Dhcp.Options.{add_size}
use android_usb_tether_macos.Wire.{Bytes, byte, le32_at}
use android_usb_tether_macos.Prelude.{
  ℕ, Bool, if◌then◌else◌, Option, ◌==◌, ◌+◌, none, not, suc, ◌&&◌, leb, ltb, some, zero, drop,
}

abbrev pub opt_msg_type : ℕ
opt_msg_type = 53

abbrev pub opt_server_id : ℕ
opt_server_id = 54

-- `msg_type_dhcp` and `server_addr`.
pub record Scanned : Type 0 where
  pub msg_type_dhcp : ℕ
  pub server_addr : ℕ

-- What one option sets. The loop for the acknowledgement does not look for the server.
unfoldable pub scan_option : Bool → ℕ → ℕ → Bytes → Scanned → Scanned
scan_option offer opt olen value s =
    let typed =
      if (opt == opt_msg_type) && leb 1 olen
      then record s { msg_type_dhcp = byte value 0 }
      else s in
    if offer && ((opt == opt_server_id) && leb 4 olen)
    then record typed { server_addr = le32_at value 0 }
    else typed

-- One round at index `i`: the index and values after it, or `none` where the loop ends. The value of the
-- option is read without a test that it lies within `opts_len`.
unfoldable pub scan_round : Bool → Bytes → ℕ → ℕ → Scanned → Option (ℕ × Scanned)
scan_round offer opts opts_len i s =
    let opt = byte opts i in
    let olen = byte opts (i + 1) in
    if not (ltb i opts_len)
    then none
    else if opt == 0xFF
    then none
    else if opt == 0
    then some (add_size i 1, s)
    else if leb opts_len (add_size i 1)
    then none
    else some (add_size i (2 + olen), scan_option offer opt olen (drop (i + 2) opts) s)

-- `none` is no result of the C loop, the fuel ran out.
unfoldable pub scan_from : ℕ → Bool → Bytes → ℕ → ℕ → Scanned → Option Scanned
scan_from zero offer opts opts_len i s = none
scan_from (suc fuel) offer opts opts_len i s = elim (scan_round offer opts opts_len i s) [
  | none ↦ some s
  | some (j, s') ↦ scan_from fuel offer opts opts_len j s'
]

unfoldable pub scan_options : Bool → Bytes → ℕ → Scanned → Option Scanned
scan_options offer opts opts_len s = scan_from (opts_len + 1) offer opts opts_len 0 s
