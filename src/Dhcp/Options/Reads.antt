-- ===== src/Dhcp/Options/Reads.antt =====
-- `dhcp_parse_options` ends on every input, and looks at no byte past the stated length.
use android_usb_tether_macos.Wire.Laws.{
  le32_at-append_left, byte_lt, byte-append_left, drop-append_left,
}
use android_usb_tether_macos.Wire.{Bytes, IsByte, byte}
use android_usb_tether_macos.Dhcp.Options.{
  option_round, apply_option, parse_options_from, dhcp_parse_options, Addrs,
}
use android_usb_tether_macos.Prelude.{
  ℕ, ◌≤◌, All, length, ◌++◌, ◌<◌, ◌≡◌, ◌^◌, arith, ◌+◌, some, suc, Option-cases, inl, length-drop,
  inr, zero, drop, none, ◌∙◌,
}

pub apply_option-append :
    (opt olen : ℕ) (value junk : Bytes) (addrs : Addrs)
    → olen ≤ length value
    → apply_option opt olen (value ++ junk) addrs ≡ apply_option opt olen value addrs
unfolding apply_option
apply_option-append opt olen value junk addrs h =
    ground (arith, le32_at-append_left value junk 0, le32_at-append_left value junk 4)

pub option_round-append :
    (opts junk : Bytes) (len i : ℕ) (addrs : Addrs)
    → All IsByte opts
    → len ≤ length opts
    → len < 2 ^ 63
    → option_round (opts ++ junk) len i addrs ≡ option_round opts len i addrs
unfolding option_round
option_round-append opts junk len i addrs bytes h small = ground (
  arith,
  byte_lt opts (i + 1) bytes,
  byte-append_left opts junk i,
  byte-append_left opts junk (i + 1),
  drop-append_left (i + 2) opts junk,
  length-drop (i + 2) opts,
  apply_option-append (byte opts i) (byte opts (i + 1)) (drop (i + 2) opts) junk addrs,
)

pub option_round_forward :
    (opts : Bytes) (len i : ℕ) (addrs : Addrs) (j : ℕ) (addrs' : Addrs)
    → All IsByte opts
    → len < 2 ^ 63
    → option_round opts len i addrs ≡ some (j, addrs')
    → (i < j) × (j ≤ len)
unfolding option_round
option_round_forward opts len i addrs j addrs' bytes small e =
    ground (arith, byte_lt opts (i + 1) bytes)

module _ (fuel : ℕ) (opts : Bytes) (len i : ℕ) (addrs : Addrs) where
  pub parse_options_from-end :
      option_round opts len i addrs ≡ none
      → parse_options_from (suc fuel) opts len i addrs ≡ some addrs
  unfolding parse_options_from
  parse_options_from-end e = rw (e, parse_options_from)

  pub parse_options_from-next :
      (j : ℕ) (addrs' : Addrs)
      → option_round opts len i addrs ≡ some (j, addrs')
      → parse_options_from (suc fuel) opts len i addrs ≡ parse_options_from fuel opts len j addrs'
  unfolding parse_options_from
  parse_options_from-next j addrs' e = rw (e, parse_options_from)

parse_options_from-append :
    (fuel : ℕ) (opts junk : Bytes) (len i : ℕ) (addrs : Addrs)
    → All IsByte opts
    → len ≤ length opts
    → len < 2 ^ 63
    → i ≤ len
    → len < i + fuel
    → (out : Addrs) × (parse_options_from fuel opts len i addrs ≡ some out)
      × (parse_options_from fuel (opts ++ junk) len i addrs ≡ some out)
parse_options_from-append zero opts junk len i addrs bytes h small le enough = absurd (omega arith)
parse_options_from-append (suc fuel) opts junk len i addrs bytes h small le enough =
    elim (Option-cases (option_round opts len i addrs)) [
      | inl e ↦ (
        addrs,
        parse_options_from-end fuel opts len i addrs e,
        parse_options_from-end fuel (opts ++ junk) len i addrs
            (option_round-append opts junk len i addrs bytes h small ∙ e),
      )
      | inr ((j, addrs'), e) ↦
          let (forward, within) = option_round_forward opts len i addrs j addrs' bytes small e in
          rw
            (
              parse_options_from-next fuel opts len i addrs j addrs' e,
              parse_options_from-next fuel (opts ++ junk) len i addrs j addrs'
                  (option_round-append opts junk len i addrs bytes h small ∙ e),
            )
            (parse_options_from-append fuel opts junk len j addrs' bytes h small within
              (omega arith))
    ]

-- The loop over the options ends on every input, and its result does not depend on any byte of the
-- memory past the stated length.
pub dhcp_parse_options_reads :
    (opts junk : Bytes) (len : ℕ) (addrs : Addrs)
    → All IsByte opts
    → len ≤ length opts
    → len < 2 ^ 63
    → (out : Addrs) × (dhcp_parse_options opts len addrs ≡ some out)
      × (dhcp_parse_options (opts ++ junk) len addrs ≡ some out)
unfolding dhcp_parse_options
dhcp_parse_options_reads opts junk len addrs bytes h small =
    parse_options_from-append (len + 1) opts junk len 0 addrs bytes h small (omega arith)
      (omega arith)
