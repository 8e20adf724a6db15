-- ===== src/Dhcp/Options/Encoded.antt =====
-- `dhcp_parse_options` on well-formed options.
use android_usb_tether_macos.Dhcp.Options.Reads.{
  parse_options_from-end, parse_options_from-next, apply_option-append,
}
use android_usb_tether_macos.Wire.Laws.{byte-append_right, byte-drop}
use android_usb_tether_macos.Dhcp.Options.{
  option_round, Addrs, apply_option, parse_options_from, add_size, dhcp_parse_options,
}
use android_usb_tether_macos.Wire.{Bytes, byte, le32_at}
use mathlib.Core.List.{append_assoc}
use android_usb_tether_macos.Prelude.{
  ℕ, List, ◌<◌, ◌∷◌, length, ◌++◌, [], ◌+◌, ◌≤◌, ◌^◌, ◌≡◌, some, none, arith, All, suc, drop, refl,
  length-append, sym, drop-drop, ◌∙◌, ap, zero, drop-append, length-drop, if◌then◌else◌, ◌*◌, ◌==◌,
}

-- An option as RFC 2132 lays it out: padding, or a code with up to 255 bytes of value.
pub data DhcpOption : Type 0 where
  pad : DhcpOption
  option : ℕ → Bytes → DhcpOption

abbrev pub IsOption : DhcpOption → Type 0
IsOption pad = Unit {0}
IsOption (option code value) = (0 < code) × (code < 0xFF) × (length value < 256)

abbrev pub encode_option : DhcpOption → Bytes
encode_option pad = 0 ∷ []
encode_option (option code value) = code ∷ length value ∷ value

abbrev pub encode_options : List DhcpOption → Bytes
encode_options [] = []
encode_options (o ∷ os) = encode_option o ++ encode_options os

-- The address in the first four bytes of a value, whose memory image they are, or the one before.
abbrev pub address_in : Bytes → ℕ → ℕ
address_in (a ∷ b ∷ c ∷ d ∷ bs) old = a + 2 ^ 8 * b + 2 ^ 16 * c + 2 ^ 24 * d
address_in _ old = old

-- What one option says, by its code in RFC 2132: the netmask (1), the router (3), and two name servers (6).
abbrev pub option_says : ℕ → Bytes → Addrs → Addrs
option_says code value old = record {
  netmask = if code == 1 then address_in value old.netmask else old.netmask;
  gateway = if code == 3 then address_in value old.gateway else old.gateway;
  dns1 = if code == 6 then address_in value old.dns1 else old.dns1;
  dns2 = if code == 6 then address_in (drop 4 value) old.dns2 else old.dns2;
}

-- What the options say, in order: a later option overrides an earlier one.
abbrev pub options_meaning : List DhcpOption → Addrs → Addrs
options_meaning [] addrs = addrs
options_meaning (pad ∷ os) addrs = options_meaning os addrs
options_meaning (option code value ∷ os) addrs = options_meaning os (option_says code value addrs)

pub address_in-short : (value : Bytes) (old : ℕ) → length value < 4 → address_in value old ≡ old
address_in-short [] old h = refl
address_in-short (a ∷ []) old h = refl
address_in-short (a ∷ b ∷ []) old h = refl
address_in-short (a ∷ b ∷ c ∷ []) old h = refl
address_in-short (a ∷ b ∷ c ∷ d ∷ bs) old h = absurd (omega arith)

pub address_in-long :
    (value : Bytes) (old : ℕ) → 4 ≤ length value → address_in value old ≡ le32_at value 0
address_in-long [] old h = absurd (omega arith)
address_in-long (a ∷ []) old h = absurd (omega arith)
address_in-long (a ∷ b ∷ []) old h = absurd (omega arith)
address_in-long (a ∷ b ∷ c ∷ []) old h = absurd (omega arith)
address_in-long (a ∷ b ∷ c ∷ d ∷ bs) old h = refl

apply_option_lem :
    (code : ℕ) (value : Bytes) (addrs : Addrs)
    → apply_option code (length value) value addrs ≡ option_says code value addrs
unfolding apply_option
apply_option_lem code value addrs = ground (
  arith,
  length-drop 4 value,
  address_in-short value addrs.netmask,
  address_in-short value addrs.gateway,
  address_in-short value addrs.dns1,
  address_in-short (drop 4 value) addrs.dns2,
  address_in-long value addrs.netmask,
  address_in-long value addrs.gateway,
  address_in-long value addrs.dns1,
  address_in-long (drop 4 value) addrs.dns2,
  byte-drop 4 0 value,
  byte-drop 4 1 value,
  byte-drop 4 2 value,
  byte-drop 4 3 value,
)

option_round-encode :
    (front value back : Bytes) (code : ℕ) (len : ℕ) (addrs : Addrs)
    → 0 < code
    → code < 0xFF
    → length value < 256
    → length front + (2 + length value) ≤ len
    → len < 2 ^ 63
    → option_round (front ++ (code ∷ length value ∷ (value ++ back))) len (length front) addrs
      ≡ some (length front + (2 + length value), option_says code value addrs)
unfolding option_round
option_round-encode front value back code len addrs h0 h1 h2 h small =
    let back' : Bytes = code ∷ length value ∷ (value ++ back) in
    let at_zero : length front + 0 ≡ length front = omega arith in
    let o : byte (front ++ back') (length front) ≡ code =
      rw at_zero at (byte-append_right front back' (length front) 0 refl) in
    let l : byte (front ++ back') (length front + 1) ≡ length value =
      byte-append_right front back' (length front) 1 refl in
    let d : drop (length front + 2) (front ++ back') ≡ value ++ back =
      sym (drop-drop (length front) 2 (front ++ back'))
      ∙ ap (λ t. drop 2 t) (drop-append front back') in
    let sum : add_size (length front + 2) (length value) ≡ length front + (2 + length value) =
      omega arith in
    ground (
      arith,
      o,
      l,
      d,
      sum,
      apply_option-append code (length value) value back addrs (omega arith),
      apply_option_lem code value addrs,
    )

option_round-pad :
    (front back : Bytes) (len : ℕ) (addrs : Addrs)
    → length front + 1 ≤ len
    → option_round (front ++ (0 ∷ back)) len (length front) addrs ≡ some (length front + 1, addrs)
unfolding option_round
option_round-pad front back len addrs h =
    let at_zero : length front + 0 ≡ length front = omega arith in
    let o : byte (front ++ (0 ∷ back)) (length front) ≡ 0 =
      rw at_zero at (byte-append_right front (0 ∷ back) (length front) 0 refl) in
    ground (arith, o)

option_round-finish :
    (front back : Bytes) (len : ℕ) (addrs : Addrs)
    → option_round (front ++ (0xFF ∷ back)) len (length front) addrs ≡ none
unfolding option_round
option_round-finish front back len addrs =
    let at_zero : length front + 0 ≡ length front = omega arith in
    let o : byte (front ++ (0xFF ∷ back)) (length front) ≡ 0xFF =
      rw at_zero at (byte-append_right front (0xFF ∷ back) (length front) 0 refl) in
    ground (arith, o)

parse_options_from-encode :
    (os : List DhcpOption) (front back : Bytes) (fuel len : ℕ) (addrs : Addrs)
    → All IsOption os
    → length front + length (encode_options os) < len
    → len < 2 ^ 63
    → length (encode_options os) < fuel
    → parse_options_from fuel
        (front ++ (encode_options os ++ (0xFF ∷ back)))
        len
        (length front)
        addrs
      ≡ some (options_meaning os addrs)
parse_options_from-encode os front back zero len addrs h fits small enough = absurd (omega arith)
parse_options_from-encode [] front back (suc fuel) len addrs h fits small enough =
    parse_options_from-end fuel _ len (length front) addrs
      (option_round-finish front back len addrs)
parse_options_from-encode (pad ∷ os) front back (suc fuel) len addrs h fits small enough =
    let size : length (front ++ (0 ∷ [])) ≡ length front + 1 = length-append front (0 ∷ []) in
    parse_options_from-next fuel _ len (length front) addrs (length front + 1) addrs
      (option_round-pad front (encode_options os ++ (0xFF ∷ back)) len addrs (omega arith))
    ∙ rw (← size, ← append_assoc front (0 ∷ []) (encode_options os ++ (0xFF ∷ back)))
        (parse_options_from-encode os (front ++ (0 ∷ [])) back fuel len addrs h.1 (omega arith)
          small (omega arith))
parse_options_from-encode (option code value ∷ os) front back (suc fuel) len addrs
      ((h0, h1, h2), hs) fits small enough =
    let this : Bytes = code ∷ length value ∷ value in
    let rest : Bytes = encode_options os ++ (0xFF ∷ back) in
    let size : length (front ++ this) ≡ length front + (2 + length value) =
      omega (arith, length-append front this) in
    let total : length (encode_options (option code value ∷ os))
        ≡ 2 + length value + length (encode_options os) =
      omega (arith, length-append value (encode_options os)) in
    let inner : front ++ ((this ++ encode_options os) ++ (0xFF ∷ back))
        ≡ front ++ (code ∷ length value ∷ (value ++ rest)) =
      ap (λ t. front ++ (code ∷ length value ∷ t))
        (append_assoc value (encode_options os) (0xFF ∷ back)) in
    let grown : front ++ (code ∷ length value ∷ (value ++ rest)) ≡ (front ++ this) ++ rest =
      sym (append_assoc front this rest) in
    rw
      (
        inner,
        parse_options_from-next fuel _ len (length front) addrs (length front + (2 + length value))
            (option_says code value addrs)
            (option_round-encode front value rest code len addrs h0 h1 h2 (omega arith) small),
        ← size,
        grown,
      )
      (parse_options_from-encode os (front ++ this) back fuel len (option_says code value addrs) hs
        (omega arith) small (omega arith))

-- Well-formed options with an end mark behind them are read for what they say: option 1 sets the netmask, 3
-- the router and 6 the first name server from the first four bytes of their values, and 6 the second from the
-- next four, where there are so many; other options and padding change nothing, a later option overrides an
-- earlier one, and what follows the end mark is not read.
pub dhcp_parse_options-encode :
    (os : List DhcpOption) (back : Bytes) (len : ℕ) (addrs : Addrs)
    → All IsOption os
    → length (encode_options os) < len
    → len < 2 ^ 63
    → dhcp_parse_options (encode_options os ++ (0xFF ∷ back)) len addrs
      ≡ some (options_meaning os addrs)
unfolding dhcp_parse_options
dhcp_parse_options-encode os back len addrs h fits small =
    parse_options_from-encode os [] back (len + 1) len addrs h (omega arith) small (omega arith)
