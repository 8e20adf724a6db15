-- ===== src/Dhcp/Scan/Encoded.antt =====
-- The scan of well-formed options for the type of an answer and its server.
use android_usb_tether_macos.Dhcp.Scan.{scan_round, scan_option, Scanned, scan_from, scan_options}
use android_usb_tether_macos.Prelude.{
  Bool, List, ℕ, length, ◌≤◌, if◌then◌else◌, ◌<◌, ◌≡◌, ◌++◌, arith, ◌+◌, All, ◌^◌, ◌==◌, ◌∷◌, ◌&&◌,
  [], some, refl, length-append, drop, suc, sym, drop-drop, ◌∙◌, ap, drop-append, none, ◌-◌,
}
use android_usb_tether_macos.Dhcp.Options.Encoded.{
  DhcpOption, IsOption, encode_options, address_in, address_in-short, address_in-long, option, pad,
}
use android_usb_tether_macos.Dhcp.Scan.Answers.{scan_from-next, scan_from-end, scan_round-past}
use android_usb_tether_macos.Wire.Laws.{byte-append_right, le32_at-append_left, byte-append_left}
use android_usb_tether_macos.Dhcp.Options.{add_size}
use android_usb_tether_macos.Wire.{Bytes, byte}
use mathlib.Core.List.{append_assoc, append-nil}

-- The type that the value of an option gives: its first byte.
abbrev pub type_in : Bytes → ℕ → ℕ
type_in [] old = old
type_in (b ∷ bs) old = b

-- What one option says, by its code in RFC 2132: the type of the message (53) and, where the server is looked
-- for, its address (54).
abbrev pub scan_says : Bool → ℕ → Bytes → Scanned → Scanned
scan_says offer code value old = record {
  msg_type_dhcp = if code == 53 then type_in value old.msg_type_dhcp else old.msg_type_dhcp;
  server_addr = if offer && (code == 54) then address_in value old.server_addr else old.server_addr;
}

abbrev pub scan_meaning : Bool → List DhcpOption → Scanned → Scanned
scan_meaning offer [] s = s
scan_meaning offer (pad ∷ os) s = scan_meaning offer os s
scan_meaning offer (option code value ∷ os) s = scan_meaning offer os (scan_says offer code value s)

type_in-none : (value : Bytes) (old : ℕ) → length value < 1 → type_in value old ≡ old
type_in-none [] old h = refl
type_in-none (b ∷ bs) old h = absurd (omega arith)

type_in-first : (value : Bytes) (old : ℕ) → 1 ≤ length value → type_in value old ≡ byte value 0
type_in-first [] old h = absurd (omega arith)
type_in-first (b ∷ bs) old h = refl

scan_option_lem :
    (offer : Bool) (code : ℕ) (value back : Bytes) (s : Scanned)
    → scan_option offer code (length value) (value ++ back) s ≡ scan_says offer code value s
unfolding scan_option
scan_option_lem offer code value back s = ground (
  arith,
  byte-append_left value back 0,
  le32_at-append_left value back 0,
  type_in-none value s.msg_type_dhcp,
  type_in-first value s.msg_type_dhcp,
  address_in-short value s.server_addr,
  address_in-long value s.server_addr,
)

-- One option at the index where `front` ends, and behind it the rest.
scan_round-option :
    (offer : Bool) (front value back : Bytes) (code opts_len : ℕ) (s : Scanned)
    → 0 < code
    → code < 0xFF
    → length value < 256
    → length front + (2 + length value) ≤ opts_len
    → opts_len < 2 ^ 63
    → scan_round offer (front ++ (code ∷ length value ∷ (value ++ back))) opts_len (length front) s
      ≡ some (length front + (2 + length value), scan_says offer code value s)
unfolding scan_round
scan_round-option offer front value back code opts_len s h0 h1 h2 h small =
    let back' : Bytes = code ∷ length value ∷ (value ++ back) in
    let at_zero : length front + 0 ≡ length front = omega arith in
    let o : byte (front ++ back') (length front) ≡ code =
      rw at_zero at (byte-append_right front back' (length front) 0 refl) in
    let l : byte (front ++ back') (length front + 1) ≡ length value =
      byte-append_right front back' (length front) 1 refl in
    let d : drop (length front + 2) (front ++ back') ≡ value ++ back =
      sym (drop-drop (length front) 2 (front ++ back'))
      ∙ ap (λ t. drop 2 t) (drop-append front back') in
    let one : add_size (length front) 1 ≡ length front + 1 = omega arith in
    let sum : add_size (length front) (2 + length value) ≡ length front + (2 + length value) =
      omega arith in
    ground (arith, o, l, d, one, sum, scan_option_lem offer code value back s)

scan_round-pad :
    (offer : Bool) (front back : Bytes) (opts_len : ℕ) (s : Scanned)
    → length front + 1 ≤ opts_len
    → opts_len < 2 ^ 63
    → scan_round offer (front ++ (0 ∷ back)) opts_len (length front) s ≡ some (length front + 1, s)
unfolding scan_round
scan_round-pad offer front back opts_len s h small =
    let at_zero : length front + 0 ≡ length front = omega arith in
    let o : byte (front ++ (0 ∷ back)) (length front) ≡ 0 =
      rw at_zero at (byte-append_right front (0 ∷ back) (length front) 0 refl) in
    let one : add_size (length front) 1 ≡ length front + 1 = omega arith in ground (arith, o, one)

-- The scan goes over well-formed options, one round for each, and on behind them.
pub scan_from-encode :
    (os : List DhcpOption) (front back : Bytes) (fuel opts_len : ℕ) (offer : Bool) (s : Scanned)
    → All IsOption os
    → length front + length (encode_options os) ≤ opts_len
    → opts_len < 2 ^ 63
    → scan_from
        (length os + fuel)
        offer
        (front ++ (encode_options os ++ back))
        opts_len
        (length front)
        s
      ≡ scan_from fuel offer
          ((front ++ encode_options os) ++ back)
          opts_len
          (length (front ++ encode_options os))
          (scan_meaning offer os s)
scan_from-encode [] front back fuel opts_len offer s h fits small =
    let none_more : 0 + fuel ≡ fuel = omega arith in rw (none_more, append-nil front) refl
scan_from-encode (pad ∷ os) front back fuel opts_len offer s h fits small =
    let size : length (front ++ (0 ∷ [])) ≡ length front + 1 = length-append front (0 ∷ []) in
    let rounds : suc (length os) + fuel ≡ suc (length os + fuel) = omega arith in
    let grown : (front ++ (0 ∷ [])) ++ encode_options os ≡ front ++ (0 ∷ encode_options os) =
      append_assoc front (0 ∷ []) (encode_options os) in
    rw rounds (
      scan_from-next (length os + fuel) offer _ opts_len (length front) s (length front + 1) s
        (scan_round-pad offer front (encode_options os ++ back) opts_len s (omega arith) small)
      ∙ rw (← size, ← append_assoc front (0 ∷ []) (encode_options os ++ back), ← grown)
          (scan_from-encode os (front ++ (0 ∷ [])) back fuel opts_len offer s h.1 (omega arith)
            small))
scan_from-encode (option code value ∷ os) front back fuel opts_len offer s ((h0, h1, h2), hs) fits
      small =
    let this : Bytes = code ∷ length value ∷ value in
    let rest : Bytes = encode_options os ++ back in
    let size : length (front ++ this) ≡ length front + (2 + length value) =
      omega (arith, length-append front this) in
    let total : length (this ++ encode_options os) ≡ 2 + length value + length (encode_options os) =
      omega (arith, length-append value (encode_options os)) in
    let rounds : suc (length os) + fuel ≡ suc (length os + fuel) = omega arith in
    let inner : front ++ ((this ++ encode_options os) ++ back)
        ≡ front ++ (code ∷ length value ∷ (value ++ rest)) =
      ap (λ t. front ++ (code ∷ length value ∷ t)) (append_assoc value (encode_options os) back) in
    let grown : (front ++ this) ++ encode_options os ≡ front ++ (this ++ encode_options os) =
      append_assoc front this (encode_options os) in
    let s' = scan_says offer code value s in
    rw
      (
        rounds,
        inner,
        scan_from-next (length os + fuel) offer _ opts_len (length front) s
            (length front + (2 + length value)) s'
            (scan_round-option offer front value rest code opts_len s h0 h1 h2 (omega arith) small),
        ← size,
        ← append_assoc front this rest,
        ← grown,
      )
      (scan_from-encode os (front ++ this) back fuel opts_len offer s' hs (omega arith) small)

length-encode_options : (os : List DhcpOption) → length os ≤ length (encode_options os)
length-encode_options [] = omega arith
length-encode_options (pad ∷ os) = omega (arith, length-encode_options os)
length-encode_options (option code value ∷ os) =
    omega (arith, length-encode_options os, length-append value (encode_options os))

scan_round-finish :
    (offer : Bool) (front back : Bytes) (opts_len : ℕ) (s : Scanned)
    → scan_round offer (front ++ (0xFF ∷ back)) opts_len (length front) s ≡ none
unfolding scan_round
scan_round-finish offer front back opts_len s =
    let at_zero : length front + 0 ≡ length front = omega arith in
    let o : byte (front ++ (0xFF ∷ back)) (length front) ≡ 0xFF =
      rw at_zero at (byte-append_right front (0xFF ∷ back) (length front) 0 refl) in
    ground (arith, o)

-- Well-formed options with an end mark behind them are scanned for what they say.
pub scan_options-encode :
    (offer : Bool) (os : List DhcpOption) (back : Bytes) (opts_len : ℕ) (s : Scanned)
    → All IsOption os
    → length (encode_options os) < opts_len
    → opts_len < 2 ^ 63
    → scan_options offer (encode_options os ++ (0xFF ∷ back)) opts_len s
      ≡ some (scan_meaning offer os s)
unfolding scan_options
scan_options-encode offer os back opts_len s h fits small =
    let fuel = opts_len - length os in
    let rounds : opts_len + 1 ≡ length os + suc fuel = omega (arith, length-encode_options os) in
    rw rounds (
      scan_from-encode os [] (0xFF ∷ back) (suc fuel) opts_len offer s h (omega arith) small
      ∙ scan_from-end fuel offer _ opts_len _ _
          (scan_round-finish offer (encode_options os) back opts_len (scan_meaning offer os s)))

-- The round that takes a message type option whose value byte stands where `opts_len` ends.
scan_round-unfinished :
    (offer : Bool) (front behind : Bytes) (olen x : ℕ) (s : Scanned)
    → 0 < olen
    → olen < 256
    → length front + 2 < 2 ^ 63
    → scan_round offer (front ++ (53 ∷ olen ∷ x ∷ behind)) (length front + 2) (length front) s
      ≡ some (length front + (2 + olen), record s { msg_type_dhcp = x })
unfolding scan_round scan_option
scan_round-unfinished offer front behind olen x s h k small =
    let back : Bytes = 53 ∷ olen ∷ x ∷ behind in
    let at_zero : length front + 0 ≡ length front = omega arith in
    let o : byte (front ++ back) (length front) ≡ 53 =
      rw at_zero at (byte-append_right front back (length front) 0 refl) in
    let l : byte (front ++ back) (length front + 1) ≡ olen =
      byte-append_right front back (length front) 1 refl in
    let d : drop (length front + 2) (front ++ back) ≡ x ∷ behind =
      sym (drop-drop (length front) 2 (front ++ back))
      ∙ ap (λ t. drop 2 t) (drop-append front back) in
    let one : add_size (length front) 1 ≡ length front + 1 = omega arith in
    let sum : add_size (length front) (2 + olen) ≡ length front + (2 + olen) = omega arith in
    ground (arith, o, l, d, one, sum)

-- An answer whose options, after any well-formed ones, end in a message type option with its length byte but
-- no value makes the scan take the byte behind the stated length for the message type, whatever that
-- byte is.
pub scan_options_overread :
    (offer : Bool) (os : List DhcpOption) (olen x : ℕ) (behind : Bytes) (s : Scanned)
    → All IsOption os
    → 0 < olen
    → olen < 256
    → length (encode_options os) + 2 < 2 ^ 63
    → scan_options offer
        (encode_options os ++ (53 ∷ olen ∷ x ∷ behind))
        (length (encode_options os) + 2)
        s
      ≡ some (record (scan_meaning offer os s) { msg_type_dhcp = x })
unfolding scan_options
scan_options_overread offer os olen x behind s h some_len k small =
    let front = encode_options os in
    let opts_len = length front + 2 in
    let fuel = length front + 1 - length os in
    let rounds : opts_len + 1 ≡ length os + suc (suc fuel) =
      omega (arith, length-encode_options os) in
    let said = scan_meaning offer os s in
    rw rounds (
      scan_from-encode os [] (53 ∷ olen ∷ x ∷ behind) (suc (suc fuel)) opts_len offer s h
        (omega arith) small
      ∙ scan_from-next (suc fuel) offer _ opts_len _ said (length front + (2 + olen))
          (record said { msg_type_dhcp = x })
          (scan_round-unfinished offer front behind olen x said some_len k small)
      ∙ scan_from-end fuel offer _ opts_len _ _
          (scan_round-past offer _ opts_len (length front + (2 + olen)) _ (omega arith)))
