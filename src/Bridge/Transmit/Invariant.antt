-- ===== src/Bridge/Transmit/Invariant.antt =====
-- The invariant of the transmit pool of src/main.c, over all interleavings of the thread and the
-- completions.
use mathlib.Core.Path.{subst}
use android_usb_tether_macos.ProtoRndis.Driver.{rndis_drv_wrap_frame}
use android_usb_tether_macos.Ipc.{dec, inc}
use android_usb_tether_macos.Bridge.Transmit.Pool.{
  IsSound, total, busy, claim_free-Claimed, flying, All-set, At-set, Claimed-pool, All-replicate,
  claimed_xfer, total-set, All-At, At-set_other, launch-set, release-set,
}
use android_usb_tether_macos.Wire.{Bytes}
use android_usb_tether_macos.Bridge.Transmit.{
  TxState, TxThread, tx_init, claimed, uncounted, TxXfer, At, idle, claim_free, num_tx_xfers,
  submit_claimed, count_sent, tx_complete, Reachable, Step, later, fresh_xfer, claim, submit, count,
  complete, stop, begun,
}
use android_usb_tether_macos.Prelude.{
  ℕ, Bool, true, pos, some, ◌+◌, ◌≡◌, suc, zero, inl, inr, ℤ, List, All, length, refl, length-set,
  ◌∙◌, arith, take, pos_part, ap, set, Bool-cases, is_positive, ◌&&◌, is_zero, sym,
}

-- A slot that the thread has claimed is in use and not with libusb.
abbrev pub Owns : TxThread → List TxXfer → Type 0
Owns idle pool = Unit
Owns (claimed i frame) pool = At pool i claimed_xfer
Owns (uncounted frame) pool = Unit

abbrev pub held : TxThread → ℕ
held idle = 0
held (claimed i frame) = 1
held (uncounted frame) = 0

-- `active_tx` for `n` transfers in flight: it lags behind by one between a submission and its count, so
-- that it can be -1.
abbrev pub active_of : TxThread → ℕ → ℤ
active_of idle n = pos n
active_of (claimed i frame) n = pos n
active_of (uncounted frame) n = dec (pos n)

pub record IsConsistent (s : TxState) : Type 0 where
  pub sound : All IsSound s.tx_pool
  pub owns : Owns s.thread s.tx_pool
  pub counted : total busy s.tx_pool ≡ total flying s.tx_pool + held s.thread
  pub active_eq : s.active_tx ≡ active_of s.thread (total flying s.tx_pool)
  pub size_eq : length s.tx_pool ≡ num_tx_xfers

tx_init-IsConsistent : IsConsistent tx_init
tx_init-IsConsistent = record {
  sound = All-replicate num_tx_xfers;
  owns = tt;
  counted = refl;
  active_eq = refl;
  size_eq = refl;
}

claim-IsConsistent :
    (s : TxState) (frame : Bytes) (i : ℕ) (pool : List TxXfer)
    → s.thread ≡ idle
    → claim_free s.tx_pool ≡ some (i, pool)
    → IsConsistent s
    → IsConsistent (record s { tx_pool = pool; thread = claimed i frame })
claim-IsConsistent s frame i pool e f k =
    let (x, at, b, u, eq) = Claimed-pool k.sound (claim_free-Claimed s.tx_pool i pool f) in
    let same : total flying pool ≡ total flying s.tx_pool =
      rw eq (omega (arith, total-set flying claimed_xfer at, u)) in
    let free : held s.thread ≡ 0 = rw e refl in
    record {
      sound = rw eq (All-set claimed_xfer at (omega arith) k.sound);
      owns = rw eq (At-set claimed_xfer at);
      counted =
          omega
            (arith, same, ap (total busy) eq, total-set busy claimed_xfer at, b, k.counted, free);
      active_eq = k.active_eq ∙ rw (e, same) refl;
      size_eq = rw eq (length-set s.tx_pool i claimed_xfer ∙ k.size_eq);
    }

dec_plus : (n : ℕ) → dec (pos (n + 1)) ≡ pos n
dec_plus n = let e : n + 1 ≡ suc n = omega arith in ap (λ t. dec (pos t)) e

submit-IsConsistent :
    (s : TxState) (buf : Bytes) (r : ℤ) (i : ℕ) (frame : Bytes)
    → s.thread ≡ claimed i frame
    → IsConsistent s
    → IsConsistent (submit_claimed buf r i frame s)
unfolding submit_claimed
submit-IsConsistent s buf r i frame e k =
    let (rlen, wrapped) = rndis_drv_wrap_frame frame buf in
    let sent = take (pos_part rlen) wrapped in
    let flown : TxXfer = record { in_use = true; in_flight = some sent } in
    let at : At s.tx_pool i claimed_xfer = subst (λ t. Owns t s.tx_pool) e k.owns in
    let one : held s.thread ≡ 1 = rw e refl in
    elim (Bool-cases (is_positive rlen && is_zero r)) [
      | inl g ↦
          let up : total flying (set s.tx_pool i flown) ≡ total flying s.tx_pool + 1 =
            omega (arith, total-set flying flown at) in
          rw g (
            subst (λ p. IsConsistent (record s { tx_pool = p; thread = uncounted frame }))
              (sym (launch-set sent at))
              (record {
                sound = All-set flown at (omega arith) k.sound;
                owns = tt;
                counted = omega (arith, up, total-set busy flown at, k.counted, one);
                active_eq =
                    k.active_eq
                    ∙ rw e
                        (sym (dec_plus (total flying s.tx_pool)) ∙ ap (λ t. dec (pos t)) (sym up));
                size_eq = length-set s.tx_pool i flown ∙ k.size_eq;
              }))
      | inr g ↦
          let same : total flying (set s.tx_pool i fresh_xfer) ≡ total flying s.tx_pool =
            omega (arith, total-set flying fresh_xfer at) in
          rw g (
            subst (λ p. IsConsistent (record s { tx_pool = p; thread = idle }))
              (sym (release-set at))
              (record {
                sound = All-set fresh_xfer at (omega arith) k.sound;
                owns = tt;
                counted = omega (arith, same, total-set busy fresh_xfer at, k.counted, one);
                active_eq = k.active_eq ∙ rw (e, same) refl;
                size_eq = length-set s.tx_pool i fresh_xfer ∙ k.size_eq;
              }))
    ]

inc-dec : (n : ℕ) → inc (dec (pos n)) ≡ pos n
inc-dec zero = refl
inc-dec (suc n) = ap pos (omega arith)

count-IsConsistent :
    (s : TxState) (frame : Bytes)
    → s.thread ≡ uncounted frame
    → IsConsistent s
    → IsConsistent (count_sent frame s)
unfolding count_sent
count-IsConsistent s frame e k =
    let none_held : held s.thread ≡ 0 = rw e refl in
    record {
      sound = k.sound;
      owns = tt;
      counted = omega (arith, k.counted, none_held);
      active_eq = ap inc (k.active_eq ∙ rw e refl) ∙ inc-dec (total flying s.tx_pool);
      size_eq = k.size_eq;
    }

Owns-set :
    (t : TxThread) {xs : List TxXfer} {i : ℕ} {x : TxXfer}
    → At xs i x
    → flying x ≡ 1
    → Owns t xs
    → Owns t (set xs i fresh_xfer)
Owns-set idle at f o = tt
Owns-set (uncounted frame) at f o = tt
Owns-set (claimed j frame) at f o = elim (At-set_other fresh_xfer o at) [
  | inl same ↦ absurd (omega (arith, ap flying same, f))
  | inr other ↦ other
]

dec-active_of : (t : TxThread) (n : ℕ) → dec (active_of t (n + 1)) ≡ active_of t n
dec-active_of idle n = dec_plus n
dec-active_of (claimed i frame) n = dec_plus n
dec-active_of (uncounted frame) n = ap dec (dec_plus n)

complete-IsConsistent :
    (s : TxState) (no_device : Bool) {i : ℕ} {x : TxXfer} {sent : Bytes}
    → At s.tx_pool i x
    → x.in_flight ≡ some sent
    → IsConsistent s
    → IsConsistent (tx_complete i no_device s)
unfolding tx_complete
complete-IsConsistent s no_device {i} {x} at e k =
    let f : flying x ≡ 1 = rw e refl in
    let b : busy x ≡ 1 = ground (arith, All-At at k.sound) in
    let down : total flying s.tx_pool ≡ total flying (set s.tx_pool i fresh_xfer) + 1 =
      omega (arith, total-set flying fresh_xfer at, f) in
    record {
      sound = All-set fresh_xfer at (omega arith) k.sound;
      owns = Owns-set s.thread at f k.owns;
      counted = omega (arith, down, total-set busy fresh_xfer at, b, k.counted);
      active_eq = ap dec (k.active_eq ∙ ap (active_of s.thread) down) ∙ dec-active_of s.thread _;
      size_eq = length-set s.tx_pool i fresh_xfer ∙ k.size_eq;
    }

pub Step-IsConsistent : {s t : TxState} → Step s t → IsConsistent s → IsConsistent t
Step-IsConsistent {s} (claim frame e run f) k = claim-IsConsistent s frame _ _ e f k
Step-IsConsistent {s} (submit buf r e) k = submit-IsConsistent s buf r _ _ e k
Step-IsConsistent {s} (count e) k = count-IsConsistent s _ e k
Step-IsConsistent {s} (complete no_device at e) k = complete-IsConsistent s no_device at e k
Step-IsConsistent {s} stop k = record {
  sound = k.sound;
  owns = k.owns;
  counted = k.counted;
  active_eq = k.active_eq;
  size_eq = k.size_eq;
}

-- In every state that the thread and the completions reach in any order, libusb has only slots that are in
-- use, the slot that the thread has claimed is not among them, as many slots are in use as are in flight
-- or claimed, so that none is lost, and `active_tx` is the number of transfers in flight, less one
-- between a submission and its count.
pub Reachable-IsConsistent : {s : TxState} → Reachable s → IsConsistent s
Reachable-IsConsistent begun = tx_init-IsConsistent
Reachable-IsConsistent (later r step) = Step-IsConsistent step (Reachable-IsConsistent r)
