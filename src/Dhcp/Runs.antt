-- ===== src/Dhcp/Runs.antt =====
-- src/dhcp.c on concrete options, headers and buffers.
use android_usb_tether_macos.Dhcp.Answer.Options.{dhcp_answer_options, IsAnswered}
use android_usb_tether_macos.Dhcp.Answer.{dhcp_answer}
use android_usb_tether_macos.Dhcp.Build.Frames.{dhcp_build_request_overruns, dhcp_build_request_lem}
use android_usb_tether_macos.Dhcp.Options.Reads.{dhcp_parse_options_reads}
use android_usb_tether_macos.Dhcp.Scan.Encoded.{scan_options_overread}
use android_usb_tether_macos.Dhcp.Scan.Answers.{scan_options_total}
use android_usb_tether_macos.Dhcp.Options.Encoded.{
  IsOption, encode_options, DhcpOption, option, pad, dhcp_parse_options-encode,
}
use android_usb_tether_macos.Dhcp.Build.{
  dhcp_build_request, client_ip_hdr, request_options, dhcp_magic_cookie, client_frame,
}
use android_usb_tether_macos.Dhcp.Scan.{scan_options, Scanned, scan_from, scan_round, scan_option}
use android_usb_tether_macos.Dhcp.Options.{dhcp_parse_options, Addrs}
use android_usb_tether_macos.Dhcp.Checksum.{
  InRange, ip_checksum, IpHdr, encode_ip_hdr, header_sum, ip_checksum_verifies, total_of_words,
}
use android_usb_tether_macos.Wire.{Bytes, be16_at, byte, be32_at, be32, write_at, le32}
use android_usb_tether_macos.Prelude.{
  ℕ, List, All, true, ◌∷◌, replicate, false, ◌++◌, drop, [], ◌≡◌, pos, some, length, refl, ◌<◌, ◌^◌,
  arith, take, ◌≤◌, ◌+◌, ◌⊎◌, ◌%◌,
}

abbrev our_mac : Bytes
our_mac = 2 ∷ 66 ∷ 172 ∷ 17 ∷ 0 ∷ 1 ∷ []

abbrev no_addrs : Addrs
no_addrs = record { gateway = 0; netmask = 0; dns1 = 0; dns2 = 0 }

-- A netmask, padding, an option that the client does not know, a router and two name servers.
abbrev offer_options : List DhcpOption
offer_options =
    option 1 (255 ∷ 255 ∷ 255 ∷ 0 ∷ [])
    ∷ pad
    ∷ option 51 (1 ∷ 2 ∷ [])
    ∷ option 3 (192 ∷ 168 ∷ 42 ∷ 129 ∷ [])
    ∷ option 6 (8 ∷ 8 ∷ 8 ∷ 8 ∷ 1 ∷ 1 ∷ 1 ∷ 1 ∷ [])
    ∷ []

abbrev offer_addrs : Addrs
offer_addrs = record {
  gateway = 0x812AA8C0;
  netmask = 0x00FFFFFF;
  dns1 = 0x08080808;
  dns2 = 0x01010101;
}

offer_options-IsOption : All IsOption offer_options
offer_options-IsOption = omega arith

abbrev header : IpHdr
header = client_ip_hdr 289

header-InRange : InRange header
header-InRange = omega arith

-- An offer that names its server.
scan_offer :
    scan_options true
      (53 ∷ 1 ∷ 2 ∷ 54 ∷ 4 ∷ 192 ∷ 168 ∷ 42 ∷ 129 ∷ 0xFF ∷ [])
      10
      (record { msg_type_dhcp = 0; server_addr = 0 })
    ≡ some (record { msg_type_dhcp = 2; server_addr = 0x812AA8C0 })
unfolding scan_options scan_from scan_round scan_option
scan_offer = refl

dhcp_parse_options-encode_example :
    dhcp_parse_options (encode_options offer_options ++ (0xFF ∷ 3 ∷ 4 ∷ [])) 29 no_addrs
    ≡ some offer_addrs
dhcp_parse_options-encode_example =
    dhcp_parse_options-encode offer_options (3 ∷ 4 ∷ []) 29 no_addrs offer_options-IsOption
      (omega arith) (omega arith)

dhcp_parse_options_reads_example :
    (out : Addrs) × (dhcp_parse_options (3 ∷ 4 ∷ 10 ∷ []) 3 no_addrs ≡ some out)
    × (dhcp_parse_options (3 ∷ 4 ∷ 10 ∷ 20 ∷ 30 ∷ 40 ∷ []) 3 no_addrs ≡ some out)
dhcp_parse_options_reads_example =
    dhcp_parse_options_reads (3 ∷ 4 ∷ 10 ∷ []) (20 ∷ 30 ∷ 40 ∷ []) 3 no_addrs
      (omega arith, (omega arith, (omega arith, tt))) (omega arith) (omega arith)

ip_checksum_verifies_example :
    (c : ℕ) × (ip_checksum (encode_ip_hdr header ++ (1 ∷ [])) ≡ some c)
    × (c < 2 ^ 16)
    × (total_of_words (encode_ip_hdr (record header { ip_sum = c })) % 0xFFFF ≡ 0)
    × (0 < total_of_words (encode_ip_hdr (record header { ip_sum = c })))
    × (header_sum (encode_ip_hdr (record header { ip_sum = c }) ++ (1 ∷ [])) ≡ some 0xFFFF)
ip_checksum_verifies_example =
    ip_checksum_verifies header (1 ∷ []) header-InRange refl (omega arith)

dhcp_build_request_overruns_example :
    let frame = client_frame our_mac 7 (request_options 0x642AA8C0 0x812AA8C0) in
    (dhcp_build_request (replicate 300 0) our_mac 7 0x642AA8C0 0x812AA8C0
      ≡ (pos 303, write_at 0 frame (replicate 300 0)))
    × (length frame ≡ 303)
dhcp_build_request_overruns_example =
    dhcp_build_request_overruns (replicate 300 0) our_mac 7 0x642AA8C0 0x812AA8C0 (omega arith)
      (omega arith) refl

dhcp_build_request_lem_example :
    let (r, frame) = dhcp_build_request (replicate 310 0) our_mac 7 0x642AA8C0 0x812AA8C0 in
    let ip = drop 14 frame in
    let udp = drop 20 ip in
    let dhcp = drop 8 udp in
    (r ≡ pos 303)
    × (take 14 frame ≡ replicate 6 0xFF ++ (our_mac ++ (8 ∷ 0 ∷ [])))
    × (total_of_words (take 20 ip) % 0xFFFF ≡ 0)
    × (byte ip 0 ≡ 0x45)
    × (byte ip 9 ≡ 17)
    × (be16_at ip 2 ≡ 289)
    × (be16_at udp 0 ≡ 68)
    × (be16_at udp 2 ≡ 67)
    × (be16_at udp 4 ≡ 269)
    × (byte dhcp 0 ≡ 1)
    × (be32_at dhcp 4 ≡ 7)
    × (take 6 (drop 28 dhcp) ≡ our_mac)
    × (take 21 (drop 240 dhcp)
        ≡ 53
          ∷ 1
          ∷ 3
          ∷ 50
          ∷ 4
          ∷ (le32 0x642AA8C0 ++ (54 ∷ 4 ∷ (le32 0x812AA8C0 ++ (55 ∷ 3 ∷ 1 ∷ 3 ∷ 6 ∷ 0xFF ∷ [])))))
dhcp_build_request_lem_example =
    dhcp_build_request_lem (replicate 310 0) our_mac 7 0x642AA8C0 0x812AA8C0 (omega arith) refl
      (omega arith)

-- The server stands before a message type without its value.
scan_options_overread_example :
    scan_options true
      (54 ∷ 4 ∷ 192 ∷ 168 ∷ 42 ∷ 129 ∷ 53 ∷ 1 ∷ 2 ∷ [])
      8
      (record { msg_type_dhcp = 0; server_addr = 0 })
    ≡ some (record { msg_type_dhcp = 2; server_addr = 0x812AA8C0 })
scan_options_overread_example =
    scan_options_overread true (option 54 (192 ∷ 168 ∷ 42 ∷ 129 ∷ []) ∷ []) 1 2 []
      (record { msg_type_dhcp = 0; server_addr = 0 }) (omega arith) (omega arith) (omega arith)
      (omega arith)

scan_options_total_example :
    (out : Scanned) × (scan_options false
        (50 ∷ 200 ∷ 1 ∷ 53 ∷ [])
        4
        (record { msg_type_dhcp = 0; server_addr = 0 })
      ≡ some out)
scan_options_total_example =
    scan_options_total false (50 ∷ 200 ∷ 1 ∷ 53 ∷ []) 4
      (record { msg_type_dhcp = 0; server_addr = 0 })
      (omega arith, (omega arith, (omega arith, (omega arith, tt)))) (omega arith)

-- An answer whose IP header has 60 bytes, of which 282 bytes came.
abbrev long_ip : Bytes
long_ip = 0x4F ∷ (replicate 8 0 ++ (17 ∷ replicate 50 0))

abbrev eth_header : Bytes
eth_header = replicate 12 0 ++ (8 ∷ 0 ∷ [])

abbrev udp_header_to_client : Bytes
udp_header_to_client = 0 ∷ 67 ∷ 0 ∷ 68 ∷ replicate 4 0

abbrev message_with_id : Bytes
message_with_id = replicate 4 0 ++ (be32 7 ++ (replicate 228 0 ++ be32 dhcp_magic_cookie))

long_ip-IsAnswered : IsAnswered eth_header long_ip udp_header_to_client message_with_id 7
long_ip-IsAnswered = record {
  eth_size = refl;
  eth_type = refl;
  ip_size = refl;
  ip_least = omega arith;
  protocol = refl;
  udp_size = refl;
  port = refl;
  msg_size = refl;
  magic = refl;
  id = refl;
}

dhcp_answer_options_example :
    (opts_len : ℕ) × (dhcp_answer
        (eth_header ++ (long_ip ++ (udp_header_to_client ++ (message_with_id ++ []))))
        282
        7
      ≡ some (message_with_id ++ [], opts_len))
    × (((322 ≤ 282) × (322 + opts_len ≡ 282)) ⊎ ((282 < 322) × (2 ^ 63 < opts_len)))
dhcp_answer_options_example =
    dhcp_answer_options eth_header long_ip udp_header_to_client message_with_id [] 282 7
      long_ip-IsAnswered (omega arith) (omega arith)
