-- ===== src/Bridge/Transmit/Progress.antt =====
-- The transmit pool of src/main.c never blocks the thread for good.
use android_usb_tether_macos.Bridge.Transmit.Invariant.{Reachable-IsConsistent, IsConsistent, held}
use android_usb_tether_macos.Bridge.Transmit.Pool.{
  total, claim_free-cases, flying, flies, busy, All-At, total-set, total-busy_le,
}
use android_usb_tether_macos.Wire.{Bytes}
use android_usb_tether_macos.Bridge.Transmit.{
  TxState, TxXfer, At, claim_free, Reachable, Step, claimed, idle, tx_complete, claim, fresh_xfer,
  num_tx_xfers,
}
use android_usb_tether_macos.Prelude.{
  ℕ, ◌∷◌, [], true, false, some, ◌≡◌, suc, inl, inr, List, ◌<◌, ◌⊎◌, set, arith, Option-cases, ap,
  refl, ◌≤◌, length, length-set,
}

-- A transfer that libusb has.
pub record InFlight (pool : List TxXfer) : Type 0 where
  pub index : ℕ
  pub slot : TxXfer
  pub sent : Bytes
  pub at : At pool index slot
  pub sending : slot.in_flight ≡ some sent

total-InFlight : (pool : List TxXfer) → 0 < total flying pool → InFlight pool
total-InFlight [] h = absurd (omega arith)
total-InFlight (x ∷ xs) h = elim (Option-cases x.in_flight) [
  | inr (sent, e) ↦ record { index = 0; slot = x; sent = sent; at = At.here; sending = e }
  | inl e ↦
      let zeroth : flying x ≡ 0 = rw e refl in
      let r = total-InFlight xs (omega (arith, h, zeroth)) in
      record {
        index = suc r.index;
        slot = r.slot;
        sent = r.sent;
        at = At.there r.at;
        sending = r.sending;
      }
]

-- What the thread can do next with a frame, while the bridge runs.
pub record CanClaim (s : TxState) (frame : Bytes) : Type 0 where
  pub index : ℕ
  pub pool : List TxXfer
  pub found : claim_free s.tx_pool ≡ some (index, pool)
  pub step : Step s (record s { tx_pool = pool; thread = claimed index frame })

freed-CanClaim :
    (s : TxState) (frame : Bytes)
    → IsConsistent s
    → s.thread ≡ idle
    → s.running ≡ true
    → (r : InFlight s.tx_pool) → CanClaim (tx_complete r.index false s) frame
unfolding tx_complete
freed-CanClaim s frame k e run r =
    let pool = set s.tx_pool r.index fresh_xfer in
    let f : flying r.slot ≡ 1 = ap flies r.sending in
    let b : busy r.slot ≡ 1 = ground (arith, All-At r.at k.sound) in
    let few : total busy pool < total busy s.tx_pool =
      omega (arith, total-set busy fresh_xfer r.at, b) in
    let most : total busy s.tx_pool ≤ length s.tx_pool = total-busy_le s.tx_pool in
    elim (claim_free-cases pool) [
      | inl (_, full) ↦
          absurd (omega (arith, few, most, full, length-set s.tx_pool r.index fresh_xfer))
      | inr (i, pool', found, _) ↦ record {
        index = i;
        pool = pool';
        found = found;
        step = claim frame e (rw run refl) found;
      }
    ]

-- In every reachable state in which the thread looks for a slot while the bridge runs, either it gets one
-- at once, or a transfer is in flight, and when that completes the thread gets a slot at once: it never
-- waits for a slot that nothing will give back.
pub Reachable-CanClaim :
    {s : TxState} (frame : Bytes)
    → Reachable s
    → s.thread ≡ idle
    → s.running ≡ true
    → CanClaim s frame ⊎ ((r : InFlight s.tx_pool) × CanClaim (tx_complete r.index false s) frame)
Reachable-CanClaim {s} frame reached e run =
    let k = Reachable-IsConsistent reached in
    elim (claim_free-cases s.tx_pool) [
      | inr (i, pool, f, c) ↦
          inl (record { index = i; pool = pool; found = f; step = claim frame e run f })
      | inl (f, full) ↦
          let none_held : held s.thread ≡ 0 = rw e refl in
          let flying_all : total flying s.tx_pool ≡ num_tx_xfers =
            omega (arith, k.counted, full, k.size_eq, none_held) in
          let r = total-InFlight s.tx_pool (omega (arith, flying_all)) in
          inr (r, freed-CanClaim s frame k e run r)
    ]
