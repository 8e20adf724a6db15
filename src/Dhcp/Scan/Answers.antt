-- ===== src/Dhcp/Scan/Answers.antt =====
-- The scan of an answer ends.
use android_usb_tether_macos.Wire.Laws.{byte_lt}
use android_usb_tether_macos.Wire.{Bytes, IsByte}
use android_usb_tether_macos.Dhcp.Scan.{scan_round, scan_options, scan_from, Scanned}
use android_usb_tether_macos.Prelude.{
  ℕ, Bool, ◌≤◌, All, ◌<◌, ◌≡◌, none, some, ◌^◌, arith, suc, ◌+◌, Option-cases, inl, inr, zero,
}

scan_round_forward :
    (offer : Bool) (opts : Bytes) (opts_len i : ℕ) (s : Scanned) (j : ℕ) (s' : Scanned)
    → All IsByte opts
    → opts_len < 2 ^ 63
    → scan_round offer opts opts_len i s ≡ some (j, s')
    → (i < opts_len) × (i < j)
unfolding scan_round
scan_round_forward offer opts opts_len i s j s' bytes small e =
    ground (arith, byte_lt opts (i + 1) bytes)

module _ (fuel : ℕ) (offer : Bool) (opts : Bytes) (opts_len i : ℕ) (s : Scanned) where
  pub scan_from-end :
      scan_round offer opts opts_len i s ≡ none
      → scan_from (suc fuel) offer opts opts_len i s ≡ some s
  unfolding scan_from
  scan_from-end e = rw (e, scan_from)

  pub scan_from-next :
      (j : ℕ) (s' : Scanned)
      → scan_round offer opts opts_len i s ≡ some (j, s')
      → scan_from (suc fuel) offer opts opts_len i s ≡ scan_from fuel offer opts opts_len j s'
  unfolding scan_from
  scan_from-next j s' e = rw (e, scan_from)

pub scan_round-past :
    (offer : Bool) (opts : Bytes) (opts_len i : ℕ) (s : Scanned)
    → opts_len ≤ i
    → scan_round offer opts opts_len i s ≡ none
unfolding scan_round
scan_round-past offer opts opts_len i s h = ground arith

scan_from_total :
    (fuel : ℕ) (offer : Bool) (opts : Bytes) (opts_len i : ℕ) (s : Scanned)
    → All IsByte opts
    → opts_len < 2 ^ 63
    → 0 < fuel
    → opts_len < i + fuel
    → (out : Scanned) × (scan_from fuel offer opts opts_len i s ≡ some out)
scan_from_total zero offer opts opts_len i s bytes small some_fuel enough = absurd (omega arith)
scan_from_total (suc fuel) offer opts opts_len i s bytes small some_fuel enough =
    elim (Option-cases (scan_round offer opts opts_len i s)) [
      | inl e ↦ (s, scan_from-end fuel offer opts opts_len i s e)
      | inr ((j, s'), e) ↦
          let (below, forward) = scan_round_forward offer opts opts_len i s j s' bytes small e in
          rw (scan_from-next fuel offer opts opts_len i s j s' e) (
            scan_from_total fuel offer opts opts_len j s' bytes small (omega (arith, below))
              (omega (arith, forward)))
    ]

-- The scan of the options of an answer ends, whatever the bytes are, for every stated length that memory
-- can hold.
pub scan_options_total :
    (offer : Bool) (opts : Bytes) (opts_len : ℕ) (s : Scanned)
    → All IsByte opts
    → opts_len < 2 ^ 63
    → (out : Scanned) × (scan_options offer opts opts_len s ≡ some out)
unfolding scan_options
scan_options_total offer opts opts_len s bytes small =
    scan_from_total (opts_len + 1) offer opts opts_len 0 s bytes small (omega arith) (omega arith)
