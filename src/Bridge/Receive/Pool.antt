-- ===== src/Bridge/Receive/Pool.antt =====
-- src/main.c, `usb_to_tun`: the receive transfers are set up, submitted, cancelled and freed. The callbacks
-- that run in between are `rx_complete`; they change the counters, and no entry of the pool.
pub mod Freeing
use android_usb_tether_macos.Ipc.{inc}
use android_usb_tether_macos.Prelude.{
  ℕ, ◌∷◌, [], ◌++◌, Bool, true, false, pos, none, some, ◌+◌, ◌≡◌, refl, List, ℤ, if◌then◌else◌,
  ◌&&◌, is_positive,
}

-- `rx_xfer_t`: whether its pointers are set.
pub record RxXfer : Type 0 where
  pub xfer : Bool
  pub buf : Bool

-- What `malloc`, `libusb_alloc_transfer` and `libusb_submit_transfer` give for one entry.
pub record RxAttempt : Type 0 where
  pub buf_ok : Bool
  pub xfer_ok : Bool
  pub submit_ok : Bool

pub data RxCall : Type 0 where
  took_buf : RxCall
  gave_buf : RxCall
  took_xfer : RxCall
  gave_xfer : RxCall
  submitted_rx : RxCall
  cancelled_rx : RxCall

abbrev pub num_rx_xfers : ℕ
num_rx_xfers = 16

abbrev pub call_if : Bool → RxCall → List RxCall
call_if b c = if b then c ∷ [] else []

-- One round of the first loop: the entry, the calls and `active_rx`.
unfoldable pub start_one : RxAttempt → ℤ → RxXfer × List RxCall × ℤ
start_one a active_rx =
    let taken = call_if a.buf_ok took_buf ++ call_if a.xfer_ok took_xfer in
    if a.buf_ok && a.xfer_ok
    then (
      record { xfer = true; buf = true },
      taken ++ call_if a.submit_ok submitted_rx,
      if a.submit_ok then inc active_rx else active_rx,
    )
    else (
      record { xfer = false; buf = false },
      taken ++ (call_if a.buf_ok gave_buf ++ call_if a.xfer_ok gave_xfer),
      active_rx,
    )

unfoldable pub start_rx : List RxAttempt → ℤ → List RxXfer × List RxCall × ℤ
start_rx [] active_rx = ([], [], active_rx)
start_rx (a ∷ rest) active_rx =
    let (x, calls, active_rx') = start_one a active_rx in
    let (xs, more, active_rx'') = start_rx rest active_rx' in (x ∷ xs, calls ++ more, active_rx'')

unfoldable pub cancel_rx : List RxXfer → List RxCall
cancel_rx [] = []
cancel_rx (x ∷ xs) = call_if x.xfer cancelled_rx ++ cancel_rx xs

unfoldable pub free_rx : List RxXfer → List RxCall
free_rx [] = []
free_rx (x ∷ xs) = (call_if x.xfer gave_xfer ++ call_if x.buf gave_buf) ++ free_rx xs

-- What `libusb_handle_events_timeout` returns.
pub data EventResult : Type 0 where
  handled : EventResult
  timed_out_or_interrupted : EventResult
  lost_device : EventResult
  failed_otherwise : EventResult

-- A round of the event loop: the result, and what its callbacks and the other threads leave.
pub record EventRound : Type 0 where
  pub result : EventResult
  pub running : Bool
  pub g_running : Bool
  pub disconnected : Bool
  pub active_rx : ℤ

pub record RxFlags : Type 0 where
  pub running : Bool
  pub g_running : Bool
  pub disconnected : Bool
  pub active_rx : ℤ

abbrev pub is_lost : EventResult → Bool
is_lost lost_device = true
is_lost handled = false
is_lost timed_out_or_interrupted = false
is_lost failed_otherwise = false

unfoldable pub event_loop : List EventRound → RxFlags → RxFlags
event_loop [] f = f
event_loop (r ∷ rs) f =
    let f' : RxFlags = record {
      running = r.running;
      g_running = r.g_running;
      disconnected = r.disconnected;
      active_rx = r.active_rx;
    } in
    let lost = record f' { disconnected = true; running = false } in
    let rest = event_loop rs f' in
    if f.running && (f.g_running && is_positive f.active_rx)
    then (if is_lost r.result then lost else rest)
    else f

-- The whole thread: the calls on the pool and the flags at its end. The drain of the callbacks, which waits
-- two seconds at most, stands between the last two.
unfoldable pub usb_to_tun : List RxAttempt → List EventRound → RxFlags → List RxCall × RxFlags
usb_to_tun attempts rounds f =
    let (pool, calls, active_rx) = start_rx attempts f.active_rx in
    let f' = event_loop rounds (record f { active_rx = active_rx }) in
    (calls ++ (cancel_rx pool ++ free_rx pool), record f' { running = false })
