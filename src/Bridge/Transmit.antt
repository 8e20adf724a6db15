-- ===== src/Bridge/Transmit.antt =====
-- src/main.c, the transmit path: the thread `tun_to_usb`, the pool of transfers that it shares with
-- `tx_complete`, and their interleavings as a step relation. A step ends where the code gives up the
-- mutex or touches an atomic variable.
pub mod Pool
pub mod Invariant
pub mod Refinement
pub mod Progress
pub mod Sent
use android_usb_tether_macos.ProtoRndis.Driver.{rndis_drv_wrap_frame}
use android_usb_tether_macos.Ipc.{inc, dec}
use android_usb_tether_macos.Frame.{frame_ip_to_eth}
use android_usb_tether_macos.Wire.{Bytes}
use mathlib.Core.Option
use android_usb_tether_macos.Prelude.{
  ℕ, ◌∷◌, [], Bool, true, false, pos, none, some, ◌^◌, ◌+◌, ◌%◌, ◌≡◌, suc, replicate, set, List,
  Option, if◌then◌else◌, ℤ, length, is_positive, ◌&&◌, take, is_zero, not, pos_part, ◌||◌, zero,
}

-- A `tx_xfer_t`. `in_flight` is what libusb has of it: the bytes it is sending.
pub record TxXfer : Type 0 where
  pub in_use : Bool
  pub in_flight : Option Bytes

-- Where the thread stands: before a claim, with a claimed slot and the frame for it, or behind a
-- submission that it has not counted yet.
pub data TxThread : Type 0 where
  idle : TxThread
  claimed : ℕ → Bytes → TxThread
  uncounted : Bytes → TxThread

pub record TxState : Type 0 where
  pub tx_pool : List TxXfer
  pub thread : TxThread
  pub active_tx : ℤ
  pub running : Bool
  pub disconnected : Bool
  pub tx_pkts : ℕ
  pub tx_bytes : ℕ

abbrev pub num_tx_xfers : ℕ
num_tx_xfers = 64

abbrev pub fresh_xfer : TxXfer
fresh_xfer = record { in_use = false; in_flight = none }

-- The search under the mutex: the first slot not in use, which is then in use.
unfoldable pub claim_free : List TxXfer → Option (ℕ × List TxXfer)
claim_free [] = none
claim_free (x ∷ xs) =
    if x.in_use
    then Option.map (λ r. (suc (r.0), x ∷ r.1)) (claim_free xs)
    else some (0, record x { in_use = true } ∷ xs)

-- The frame of a packet that was read from utun, if `frame_ip_to_eth` makes one of it.
unfoldable pub outbound_frame : Bytes → Bytes → Bytes → Bytes → Option Bytes
outbound_frame pkt ebuf mac gw_mac =
    let (elen, ebuf') = frame_ip_to_eth pkt ebuf mac gw_mac in
    if is_positive elen then some (take (pos_part elen) ebuf') else none

-- `tx->in_use = 0` on the slot at an index, and what a submission makes of the slot for libusb.
abbrev pub release : ℕ → List TxXfer → List TxXfer
release i [] = []
release zero (x ∷ xs) = record x { in_use = false } ∷ xs
release (suc i) (x ∷ xs) = x ∷ release i xs

abbrev pub launch : ℕ → Bytes → List TxXfer → List TxXfer
launch i sent [] = []
launch zero sent (x ∷ xs) = record x { in_flight = some sent } ∷ xs
launch (suc i) sent (x ∷ xs) = x ∷ launch i sent xs

-- The frame is wrapped into the slot's buffer and submitted with the result `r`; on failure the slot is
-- given back.
unfoldable pub submit_claimed : Bytes → ℤ → ℕ → Bytes → TxState → TxState
submit_claimed buf r i frame s =
    let (rlen, wrapped) = rndis_drv_wrap_frame frame buf in
    if is_positive rlen && is_zero r
    then record s {
      tx_pool = launch i (take (pos_part rlen) wrapped) s.tx_pool;
      thread = uncounted frame;
    }
    else record s { tx_pool = release i s.tx_pool; thread = idle }

-- `atomic_fetch_add` on the three counters behind a submission.
unfoldable pub count_sent : Bytes → TxState → TxState
count_sent frame s = record s {
  active_tx = inc s.active_tx;
  tx_pkts = (s.tx_pkts + 1) % 2 ^ 64;
  tx_bytes = (s.tx_bytes + length frame) % 2 ^ 64;
  thread = idle;
}

-- The completion of the transfer of slot `i`, which libusb no longer has.
unfoldable pub tx_complete : ℕ → Bool → TxState → TxState
tx_complete i no_device s = record s {
  tx_pool = set s.tx_pool i fresh_xfer;
  active_tx = dec s.active_tx;
  running = s.running && not no_device;
  disconnected = s.disconnected || no_device;
}

-- The slot at an index.
pub data At : List TxXfer → ℕ → TxXfer → Type 0 where
  here : {x : TxXfer} {xs : List TxXfer} → At (x ∷ xs) 0 x
  there : {x y : TxXfer} {xs : List TxXfer} {i : ℕ} → At xs i x → At (y ∷ xs) (suc i) x

-- One step of the thread, of a completion, or of whoever ends the bridge: `running` stands for the flag
-- of the context and for `g_running`, which the thread always tests together.
pub data Step (s : TxState) : TxState → Type 0 where
  claim :
      (frame : Bytes) {i : ℕ} {pool : List TxXfer}
      → s.thread ≡ idle
      → s.running ≡ true
      → claim_free s.tx_pool ≡ some (i, pool)
      → Step s (record s { tx_pool = pool; thread = claimed i frame })
  submit :
      (buf : Bytes) (r : ℤ) {i : ℕ} {frame : Bytes}
      → s.thread ≡ claimed i frame
      → Step s (submit_claimed buf r i frame s)
  count : {frame : Bytes} → s.thread ≡ uncounted frame → Step s (count_sent frame s)
  complete :
      (no_device : Bool) {i : ℕ} {x : TxXfer} {sent : Bytes}
      → At s.tx_pool i x
      → x.in_flight ≡ some sent
      → Step s (tx_complete i no_device s)
  stop : Step s (record s { running = false })

-- `run_session` sets the pool up with nothing in use.
abbrev pub tx_init : TxState
tx_init = record {
  tx_pool = replicate num_tx_xfers fresh_xfer;
  thread = idle;
  active_tx = pos 0;
  running = true;
  disconnected = false;
  tx_pkts = 0;
  tx_bytes = 0;
}

pub data Reachable : TxState → Type 0 where
  begun : Reachable tx_init
  later : {s t : TxState} → Reachable s → Step s t → Reachable t
