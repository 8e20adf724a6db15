-- ===== src/Arp/Runs.antt =====
-- src/arp.c on concrete frames.
use android_usb_tether_macos.Arp.Gratuitous.{garp_frame, arp_send_gratuitous_lem}
use android_usb_tether_macos.ProtoRndis.Unwrap.Frames.{collect}
use android_usb_tether_macos.ProtoRndis.Unwrap.{rndis_drv_unwrap_data}
use android_usb_tether_macos.Arp.Replies.{
  AsksFor, reply_frame, arp_handle_request_silent, arp_handle_request_answers,
}
use android_usb_tether_macos.Wire.{Bytes}
use android_usb_tether_macos.Arp.{
  arp_handle_request, arp_send_gratuitous, encode_eth_hdr, broadcast_mac, arp_ethertype,
  encode_arp_packet, arp_hw_ethernet, arp_op_request, arp_build_reply,
}
use android_usb_tether_macos.Prelude.{
  ℕ, ◌∷◌, replicate, arith, refl, ◌≡◌, ◌++◌, [], ◌≢◌, pos, some, ap, pos_part, length,
}

abbrev our_mac : Bytes
our_mac = 2 ∷ 66 ∷ 172 ∷ 17 ∷ 0 ∷ 1 ∷ []

abbrev phone_mac : Bytes
phone_mac = 10 ∷ 11 ∷ 12 ∷ 13 ∷ 14 ∷ 15 ∷ []

-- 192.168.42.100 and 192.168.42.129 as the memory images of the addresses.
abbrev our_ip : ℕ
our_ip = 0x642AA8C0

abbrev phone_ip : ℕ
phone_ip = 0x812AA8C0

-- The phone asks who has our address.
abbrev question : Bytes
question =
    encode_eth_hdr (record { dst = broadcast_mac; src = phone_mac; ethertype = arp_ethertype })
    ++ encode_arp_packet (record {
      hw_type = arp_hw_ethernet;
      proto_type = 0x0800;
      hw_len = 6;
      proto_len = 4;
      opcode = arp_op_request;
      sender_mac = phone_mac;
      sender_ip = phone_ip;
      target_mac = replicate 6 0;
      target_ip = our_ip;
    })

question-AsksFor : AsksFor our_ip question
question-AsksFor = record { whole = omega arith; is_arp = refl; is_request = refl; for_us = refl }

answered : arp_handle_request question (replicate 42 9) our_mac our_ip ≢ (pos 0, replicate 42 9)
unfolding arp_handle_request arp_build_reply
answered e = absurd (omega (arith, ap (λ t. pos_part t.0) e))

not_for_us : arp_handle_request question (replicate 42 9) our_mac phone_ip ≡ (pos 0, replicate 42 9)
unfolding arp_handle_request
not_for_us = refl

arp_handle_request_answers_example :
    arp_handle_request question (replicate 43 9) our_mac our_ip
    ≡ (pos 42, reply_frame our_mac our_ip phone_mac phone_ip ++ (9 ∷ []))
arp_handle_request_answers_example =
    arp_handle_request_answers question (replicate 43 9) our_mac our_ip question-AsksFor
      (omega arith) refl

arp_handle_request_silent_example : AsksFor our_ip question
arp_handle_request_silent_example =
    arp_handle_request_silent question (replicate 42 9) our_mac our_ip answered

arp_send_gratuitous_lem_example :
    (sent : Bytes) × (arp_send_gratuitous (replicate 42 9) (replicate 128 9) our_mac our_ip
      ≡ some sent)
    × (rndis_drv_unwrap_data collect sent (length sent) [] ≡ some (garp_frame our_mac our_ip ∷ []))
arp_send_gratuitous_lem_example =
    arp_send_gratuitous_lem (replicate 42 9) (replicate 128 9) our_mac our_ip (omega arith)
      (omega arith) (omega arith) refl
