-- ===== src/Bridge/Transmit/Refinement.antt =====
-- The transmit pool of src/main.c implements a counter of transfers: free, held by the thread, or being
-- sent. The abstract view forgets the slots, their order and their bytes.
use android_usb_tether_macos.ProtoRndis.Driver.{rndis_drv_wrap_frame}
use android_usb_tether_macos.Bridge.Transmit.Invariant.{
  Reachable-IsConsistent, held, IsConsistent, Owns,
}
use android_usb_tether_macos.Bridge.Transmit.Pool.{
  total, flying, Claimed-pool, claim_free-Claimed, total-set, claimed_xfer, launch-set, release-set,
  All-At,
}
use android_usb_tether_macos.Bridge.Transmit.{
  TxXfer, submit_claimed, TxState, count_sent, Reachable, tx_complete, Step, claim, submit, At,
  fresh_xfer, count, complete, stop,
}
use mathlib.Core.Path.{subst}
use android_usb_tether_macos.Prelude.{
  ℕ, true, some, ◌+◌, ◌≡◌, inl, inr, if◌then◌else◌, arith, take, pos_part, Bool-cases, is_positive,
  ◌&&◌, is_zero, ap, ◌∙◌, sym, refl,
}

pub record Counts : Type 0 where
  pub free : ℕ
  pub held : ℕ
  pub sending : ℕ

-- What a step is for the counter: the thread takes a slot, hands it to libusb or gives it back, raises the
-- counters, a completion comes, or the bridge is ended.
pub data Kind : Type 0 where
  taking : Kind
  handing : Kind
  counting : Kind
  completing : Kind
  ending : Kind

abbrev pub kind_of : {s t : TxState} → Step s t → Kind
kind_of (claim frame e run f) = taking
kind_of (submit buf r e) = handing
kind_of (count e) = counting
kind_of (complete no_device at e) = completing
kind_of stop = ending

-- The one move that a kind of step makes from the counts `c` to `d`; a slot that is handed over is sent,
-- or given back where its frame does not fit or the submission fails.
pub data Move (c d : Counts) : Kind → Type 0 where
  acquire : c.free ≡ d.free + 1 → c.held ≡ 0 → d.held ≡ 1 → d.sending ≡ c.sending → Move c d taking
  give_back :
      d.free ≡ c.free + 1 → c.held ≡ 1 → d.held ≡ 0 → d.sending ≡ c.sending → Move c d handing
  send : d.free ≡ c.free → c.held ≡ 1 → d.held ≡ 0 → d.sending ≡ c.sending + 1 → Move c d handing
  note : d.free ≡ c.free → d.held ≡ c.held → d.sending ≡ c.sending → Move c d counting
  finish : d.free ≡ c.free + 1 → d.held ≡ c.held → c.sending ≡ d.sending + 1 → Move c d completing
  rest : d.free ≡ c.free → d.held ≡ c.held → d.sending ≡ c.sending → Move c d ending

abbrev pub unused : TxXfer → ℕ
unused x = if x.in_use then 0 else 1

abbrev pub counts_of : TxState → Counts
counts_of s = record {
  free = total unused s.tx_pool;
  held = held s.thread;
  sending = total flying s.tx_pool;
}

moved_once :
    {s t : TxState} (step : Step s t)
    → IsConsistent s
    → Move (counts_of s) (counts_of t) (kind_of step)
unfolding submit_claimed count_sent tx_complete
moved_once {s} (claim frame e run f) k =
    let (x, at, b, u, eq) = Claimed-pool k.sound (claim_free-Claimed s.tx_pool _ _ f) in
    let n : unused x ≡ 1 = ground arith in
    acquire (rw eq (omega (arith, total-set unused claimed_xfer at, n))) (rw e refl) refl
      (rw eq (omega (arith, total-set flying claimed_xfer at, u)))
moved_once {s} (submit buf r {i} {frame} e) k =
    let (rlen, wrapped) = rndis_drv_wrap_frame frame buf in
    let sent = take (pos_part rlen) wrapped in
    let flown : TxXfer = record { in_use = true; in_flight = some sent } in
    let at : At s.tx_pool i claimed_xfer = subst (λ t. Owns t s.tx_pool) e k.owns in
    let one : held s.thread ≡ 1 = rw e refl in
    elim (Bool-cases (is_positive rlen && is_zero r)) [
      | inl g ↦ rw g (
          send (ap (total unused) (launch-set sent at) ∙ omega (arith, total-set unused flown at))
            one refl
            (ap (total flying) (launch-set sent at) ∙ omega (arith, total-set flying flown at)))
      | inr g ↦ rw g (
          give_back
            (ap (total unused) (release-set at) ∙ omega (arith, total-set unused fresh_xfer at)) one
            refl
            (ap (total flying) (release-set at) ∙ omega (arith, total-set flying fresh_xfer at)))
    ]
moved_once (count e) k = note refl (sym (rw e refl)) refl
moved_once {s} (complete no_device {i} {x} at e) k =
    let f : flying x ≡ 1 = rw e refl in
    let n : unused x ≡ 0 = ground (arith, All-At at k.sound) in
    finish (omega (arith, total-set unused fresh_xfer at, n)) refl
      (omega (arith, total-set flying fresh_xfer at, f))
moved_once stop k = rest refl refl refl

-- Each step from a state that the thread and the completions reach in any order is, seen as counts, the move of
-- a counter of transfers that belongs to it: the thread takes a slot only while it has none, and then there was
-- a free one; what it has it sends or gives back; a completion moves exactly one slot from being sent
-- to free; no other step moves one.
pub Step-Move :
    {s t : TxState} (r : Reachable s) (step : Step s t)
    → Move (counts_of s) (counts_of t) (kind_of step)
Step-Move r step = moved_once step (Reachable-IsConsistent r)
