-- ===== src/Arp/Replies.antt =====
-- When `arp_handle_request` answers, and what it answers.
use mathlib.Core.List.{append_assoc}
use android_usb_tether_macos.Frame.{sizeof_eth_hdr}
use android_usb_tether_macos.Wire.Laws.{write_at-cleared}
use android_usb_tether_macos.Wire.{Bytes, be16_at, be16, le32_at, le32}
use android_usb_tether_macos.Arp.{
  arp_build_reply, sizeof_arp_frame, arp_ethertype, encode_arp_packet, arp_reply_packet,
  arp_handle_request, ArpPacket, sizeof_arp_packet, arp_op_request, arp_op_reply,
}
use android_usb_tether_macos.Prelude.{
  ℕ, ◌≤◌, ◌++◌, length, ◌≡◌, pos, drop, le→ltb, ap, take, ◌≢◌, arith, length-append, length-take,
  length-drop, drop-append, ◌∷◌, [],
}

-- The bytes of an Ethernet frame with an ARP reply, as RFC 826 lays them out for IPv4: destination and source,
-- the type, hardware and protocol with their lengths, the operation 2, and the addresses of sender and target.
abbrev pub arp_frame : Bytes → Bytes → Bytes → ℕ → Bytes → ℕ → Bytes
arp_frame dst src sender_mac sender_ip target_mac target_ip =
    (dst ++ (src ++ (8 ∷ 6 ∷ [])))
    ++ (0
        ∷ 1
        ∷ 8
        ∷ 0
        ∷ 6
        ∷ 4
        ∷ 0
        ∷ 2
        ∷ (sender_mac ++ (le32 sender_ip ++ (target_mac ++ le32 target_ip))))

abbrev pub reply_frame : Bytes → ℕ → Bytes → ℕ → Bytes
reply_frame our_mac our_ip their_mac their_ip =
    arp_frame their_mac our_mac our_mac our_ip their_mac their_ip

eth_size :
    (their_mac our_mac : Bytes)
    → length our_mac ≡ 6
    → length their_mac ≡ 6
    → length (their_mac ++ (our_mac ++ be16 arp_ethertype)) ≡ sizeof_eth_hdr
eth_size their_mac our_mac ho ht = omega (
  arith,
  length-append their_mac (our_mac ++ be16 arp_ethertype),
  length-append our_mac (be16 arp_ethertype),
)

pub arp_size :
    (p : ArpPacket)
    → length p.sender_mac ≡ 6
    → length p.target_mac ≡ 6
    → length (encode_arp_packet p) ≡ sizeof_arp_packet
arp_size p hs ht = omega (
  arith,
  length-append p.sender_mac (le32 p.sender_ip ++ (p.target_mac ++ le32 p.target_ip)),
  length-append p.target_mac (le32 p.target_ip),
)

pub arp_build_reply_lem :
    (buf our_mac : Bytes) (our_ip : ℕ) (their_mac : Bytes) (their_ip : ℕ)
    → sizeof_arp_frame ≤ length buf
    → length our_mac ≡ 6
    → length their_mac ≡ 6
    → arp_build_reply buf our_mac our_ip their_mac their_ip ≡ (
      pos sizeof_arp_frame,
      reply_frame our_mac our_ip their_mac their_ip ++ drop sizeof_arp_frame buf,
    )
unfolding arp_build_reply
arp_build_reply_lem buf our_mac our_ip their_mac their_ip h ho ht =
    let arp = arp_reply_packet our_mac our_ip their_mac their_ip in
    rw (le→ltb (length buf) sizeof_arp_frame h) (
      ap (λ t. (pos sizeof_arp_frame, t))
        (write_at-cleared sizeof_eth_hdr sizeof_arp_frame
          (their_mac ++ (our_mac ++ be16 arp_ethertype)) (encode_arp_packet arp) buf
          (eth_size their_mac our_mac ho ht) (omega (arith, arp_size arp ho ht)) h))

-- A frame is a request for our address: it holds a whole ARP packet with the request code and our
-- address as its target.
pub record AsksFor (our_ip : ℕ) (frame : Bytes) : Type 0 where
  pub whole : sizeof_arp_frame ≤ length frame
  pub is_arp : be16_at frame 12 ≡ arp_ethertype
  pub is_request : be16_at (drop sizeof_eth_hdr frame) 6 ≡ arp_op_request
  pub for_us : le32_at (drop sizeof_eth_hdr frame) 24 ≡ our_ip

asker_size :
    (frame : Bytes)
    → sizeof_arp_frame ≤ length frame
    → length (take 6 (drop 8 (drop sizeof_eth_hdr frame))) ≡ 6
asker_size frame h = omega (
  arith,
  length-take 6 (drop 8 (drop sizeof_eth_hdr frame)),
  length-drop 8 (drop sizeof_eth_hdr frame),
  length-drop sizeof_eth_hdr frame,
)

-- A request for our address, with room for the answer, is answered by the ARP reply with our addresses as
-- the sender's and, as the target's, those that the request has at its bytes 8 and 14; the frame goes from us
-- to the asker.
pub arp_handle_request_answers :
    (frame reply_buf our_mac : Bytes) (our_ip : ℕ)
    → AsksFor our_ip frame
    → sizeof_arp_frame ≤ length reply_buf
    → length our_mac ≡ 6
    → let arp = drop 14 frame in
      let their_mac = take 6 (drop 8 arp) in
      arp_handle_request frame reply_buf our_mac our_ip ≡ (
        pos 42,
        arp_frame their_mac our_mac our_mac our_ip their_mac (le32_at arp 14) ++ drop 42 reply_buf,
      )
unfolding arp_handle_request
arp_handle_request_answers frame reply_buf our_mac our_ip asks h ho =
    let arp = drop sizeof_eth_hdr frame in
    ground (
      arith,
      arp_build_reply_lem reply_buf our_mac our_ip (take 6 (drop 8 arp)) (le32_at arp 14) h ho
          (asker_size frame asks.whole),
    )

-- The reply buffer is touched, or a length other than 0 returned, only for a request for our address.
pub arp_handle_request_silent :
    (frame reply_buf our_mac : Bytes) (our_ip : ℕ)
    → arp_handle_request frame reply_buf our_mac our_ip ≢ (pos 0, reply_buf)
    → AsksFor our_ip frame
unfolding arp_handle_request
arp_handle_request_silent frame reply_buf our_mac our_ip h = ground arith

not_request :
    (frame reply_buf our_mac : Bytes) (our_ip : ℕ)
    → be16_at (drop sizeof_eth_hdr frame) 6 ≡ arp_op_reply
    → arp_handle_request frame reply_buf our_mac our_ip ≡ (pos 0, reply_buf)
unfolding arp_handle_request
not_request frame reply_buf our_mac our_ip h = ground arith

-- What we answer is no request for anybody: handed to a second host that runs this code, whatever
-- its addresses are, it gets no answer.
pub arp_handle_request-reply_frame :
    (our_mac their_mac reply_buf other_mac rest : Bytes) (our_ip their_ip other_ip : ℕ)
    → length our_mac ≡ 6
    → length their_mac ≡ 6
    → arp_handle_request
        (reply_frame our_mac our_ip their_mac their_ip ++ rest)
        reply_buf
        other_mac
        other_ip
      ≡ (pos 0, reply_buf)
arp_handle_request-reply_frame our_mac their_mac reply_buf other_mac rest our_ip their_ip other_ip
      ho ht =
    let eth : Bytes = their_mac ++ (our_mac ++ be16 arp_ethertype) in
    let arp : Bytes = encode_arp_packet (arp_reply_packet our_mac our_ip their_mac their_ip) in
    let size : length eth ≡ sizeof_eth_hdr = eth_size their_mac our_mac ho ht in
    let behind : drop sizeof_eth_hdr ((eth ++ arp) ++ rest) ≡ arp ++ rest =
      rw (append_assoc eth arp rest, ← size) (drop-append eth (arp ++ rest)) in
    not_request ((eth ++ arp) ++ rest) reply_buf other_mac other_ip (rw behind)
