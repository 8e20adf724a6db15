-- ===== src/Rndis/Bounds.antt =====
-- What the parsers of src/rndis.c read: never past the length that the caller states, whatever the
-- fields of the message hold.
use android_usb_tether_macos.Wire.Laws.{write_at-front}
use android_usb_tether_macos.Rndis.{sizeof_data_packet, rndis_msg_packet}
use android_usb_tether_macos.Wire.{Bytes, le32_at, write_at}
use android_usb_tether_macos.Rndis.Parse.{
  rndis_parse_query_cmplt, rndis_parse_data_packet, copy_query_data,
}
use android_usb_tether_macos.Prelude.{
  ℕ, ◌≡◌, ◌≤◌, some, ◌↔◌, length, ◌<◌, ◌+◌, take, pos, drop, ◌%◌, arith, ◌^◌, ◌++◌, length-take,
  length-drop, min, ◌∙◌,
}

-- The frame that the data parser reports is not empty, and lies wholly inside the message, whatever
-- its offset and length fields hold: the caller that reads it stays within the message's memory.
pub rndis_parse_data_packet_bounds :
    (buf : Bytes) (len s n : ℕ)
    → len ≤ length buf
    → rndis_parse_data_packet buf len ≡ some (s, n)
    → (0 < n) × (s + n ≤ len) × (length (take n (drop s buf)) ≡ n)
unfolding rndis_parse_data_packet
rndis_parse_data_packet_bounds buf len s n h e =
    let fits : (0 < n) × (s + n ≤ len) = ground arith in
    (fits.0, fits.1, omega (arith, length-take n (drop s buf), length-drop s buf))

-- The data parser accepts a message exactly when its stated length holds the header, it is a packet
-- message with data, and the data, counted from the data offset field at byte 8 in 32 bits, end
-- within the stated length.
pub rndis_parse_data_packet_iff :
    (buf : Bytes) (len s n : ℕ)
    → (rndis_parse_data_packet buf len ≡ some (s, n)) ↔ (
        (sizeof_data_packet ≤ len)
        × (le32_at buf 0 ≡ rndis_msg_packet)
        × (s ≡ (8 + le32_at buf 8) % 2 ^ 32)
        × (n ≡ le32_at buf 12)
        × (0 < n)
        × (s + n ≤ len))
unfolding rndis_parse_data_packet
rndis_parse_data_packet_iff buf len s n = (λ e. ground arith, λ h. ground arith)

write_slice :
    (start k : ℕ) (buf out : Bytes)
    → start + k ≤ length buf
    → k ≤ length out
    → write_at 0 (take k (drop start buf)) out ≡ take k (drop start buf) ++ drop k out
write_slice start k buf out h g =
    let e : length (take k (drop start buf)) ≡ k =
      omega (arith, length-take k (drop start buf), length-drop start buf) in
    write_at-front (take k (drop start buf)) out (omega (arith, e)) ∙ rw e

copy_query_data_lem :
    (buf : Bytes) (len start n : ℕ) (data_out : Bytes) (data_len : ℕ) (data_out' : Bytes)
    (data_len' : ℕ)
    → len ≤ length buf
    → data_len ≤ length data_out
    → copy_query_data buf len start n (some (data_out, data_len))
      ≡ (pos 0, some (data_out', data_len'))
    → (start + n ≤ len)
      × (data_len' ≡ min n data_len)
      × (data_out' ≡ take data_len' (drop start buf) ++ drop data_len' data_out)
unfolding copy_query_data
copy_query_data_lem buf len start n data_out data_len data_out' data_len' h k e =
    ground (arith, write_slice start n buf data_out, write_slice start data_len buf data_out)

-- What the query parser does when it returns 0 on an answer with data. The data lie within the
-- message; as many of them are copied as the caller's length allows, the length is set to their
-- number, and they replace the front of the caller's buffer.
pub rndis_parse_query_cmplt_bounds :
    (buf : Bytes) (len : ℕ) (data_out : Bytes) (data_len : ℕ) (data_out' : Bytes) (data_len' : ℕ)
    → len ≤ length buf
    → data_len ≤ length data_out
    → 0 < le32_at buf 16
    → rndis_parse_query_cmplt buf len (some (data_out, data_len))
      ≡ (pos 0, some (data_out', data_len'))
    → let start = (8 + le32_at buf 20) % 2 ^ 32 in
      (start + le32_at buf 16 ≤ len)
      × (data_len' ≡ min (le32_at buf 16) data_len)
      × (data_out' ≡ take data_len' (drop start buf) ++ drop data_len' data_out)
unfolding rndis_parse_query_cmplt
rndis_parse_query_cmplt_bounds buf len data_out data_len data_out' data_len' h k g e = ground (
  arith,
  copy_query_data_lem buf len ((8 + le32_at buf 20) % 2 ^ 32) (le32_at buf 16) data_out data_len
      data_out' data_len',
)
