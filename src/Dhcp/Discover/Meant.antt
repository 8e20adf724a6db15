-- ===== src/Dhcp/Discover/Meant.antt =====
-- What an answer of a DHCP server means for the exchange of src/dhcp.c, and the lease it grants.
use android_usb_tether_macos.Config.{default_netmask}
use android_usb_tether_macos.Dhcp.Options.Encoded.{
  options_meaning, dhcp_parse_options-encode, DhcpOption, encode_options, IsOption,
}
use android_usb_tether_macos.Dhcp.Scan.Encoded.{scan_meaning, scan_options-encode}
use android_usb_tether_macos.Dhcp.Build.{sizeof_dhcp_packet}
use android_usb_tether_macos.Dhcp.Lease.{Lease, default_gateway, default_dns1, default_dns2}
use android_usb_tether_macos.Dhcp.Scan.{scan_options, Scanned}
use android_usb_tether_macos.Dhcp.Answer.{dhcp_answer}
use android_usb_tether_macos.Dhcp.Options.{Addrs, dhcp_parse_options}
use android_usb_tether_macos.Dhcp.Discover.{discover_xid}
use android_usb_tether_macos.Wire.{Bytes, le32_at}
use android_usb_tether_macos.Prelude.{
  ℕ, Bool, true, some, ◌^◌, ◌<◌, ◌≡◌, length, drop, ◌++◌, ap, ◌==◌, if◌then◌else◌, List, take, ◌∙◌,
  ◌∷◌, All, Option,
}

-- The frame at the front of the memory is an answer to this exchange: well-formed options with an end mark
-- stand behind its message, and they give the type `type`. `server` is the server that is known before.
pub record IsAnswer (offer : Bool) (type : ℕ) (frame : Bytes) (frame_len server : ℕ) : Type 0 where
  pub dhcp : Bytes
  pub opts_len : ℕ
  pub options : List DhcpOption
  pub behind : Bytes
  pub is_answer : dhcp_answer frame frame_len discover_xid ≡ some (dhcp, opts_len)
  pub encoded : drop sizeof_dhcp_packet dhcp ≡ encode_options options ++ (0xFF ∷ behind)
  pub are_options : All IsOption options
  pub within : length (encode_options options) < opts_len
  pub in_memory : opts_len < 2 ^ 63
  pub typed :
      (scan_meaning offer options
        (record { msg_type_dhcp = 0; server_addr = server })).msg_type_dhcp
      ≡ type

-- The server that an offer names, the address that an answer gives, and what its options say.
abbrev pub server_of :
    {type : ℕ} {frame : Bytes} {n server : ℕ} → IsAnswer true type frame n server → ℕ
server_of {server} a =
    (scan_meaning true a.options (record { msg_type_dhcp = 0; server_addr = server })).server_addr

abbrev pub given_addr :
    {offer : Bool} {type : ℕ} {frame : Bytes} {n server : ℕ}
    → IsAnswer offer type frame n server
    → ℕ
given_addr a = le32_at a.dhcp 16

abbrev pub addrs_of :
    {offer : Bool} {type : ℕ} {frame : Bytes} {n server : ℕ}
    → IsAnswer offer type frame n server
    → Addrs
    → Addrs
addrs_of a addrs = options_meaning a.options addrs

pub answer_parsed :
    {offer : Bool} {type : ℕ} {frame : Bytes} {n server : ℕ}
    (a : IsAnswer offer type frame n server) (addrs : Addrs)
    → dhcp_parse_options (drop sizeof_dhcp_packet a.dhcp) a.opts_len addrs ≡ some (addrs_of a addrs)
answer_parsed a addrs = rw a.encoded (
    dhcp_parse_options-encode a.options a.behind a.opts_len addrs a.are_options a.within
      a.in_memory)

abbrev with_type : ℕ → ℕ → Option Scanned
with_type server_addr type = some (record { msg_type_dhcp = type; server_addr = server_addr })

pub answer_scanned :
    {offer : Bool} {type : ℕ} {frame : Bytes} {n server : ℕ}
    (a : IsAnswer offer type frame n server)
    → let s : Scanned = record { msg_type_dhcp = 0; server_addr = server } in
      scan_options offer (drop sizeof_dhcp_packet a.dhcp) a.opts_len s
      ≡ some (record {
        msg_type_dhcp = type;
        server_addr = (scan_meaning offer a.options s).server_addr;
      })
answer_scanned {offer} {type} {frame} {n} {server} a =
    let s : Scanned = record { msg_type_dhcp = 0; server_addr = server } in
    let server' = (scan_meaning offer a.options s).server_addr in
    rw a.encoded
      (scan_options-encode offer a.options a.behind a.opts_len s a.are_options a.within a.in_memory)
    ∙ ap (with_type server') a.typed

-- The lease as it is meant: each string is the text of its address, cut off to 15 bytes, or the default where
-- no option gave one.
abbrev text_or : (ℕ → Bytes) → ℕ → Bytes → Bytes
text_or inet_ntoa addr default = if addr == 0 then take 15 default else take 15 (inet_ntoa addr)

abbrev pub granted : (ℕ → Bytes) → ℕ → Addrs → Lease
granted inet_ntoa addr said = record {
  ip = take 15 (inet_ntoa addr);
  gateway = text_or inet_ntoa said.gateway default_gateway;
  netmask = text_or inet_ntoa said.netmask default_netmask;
  dns1 = text_or inet_ntoa said.dns1 default_dns1;
  dns2 = text_or inet_ntoa said.dns2 default_dns2;
}
