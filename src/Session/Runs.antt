-- ===== src/Session/Runs.antt =====
-- src/main.c: sessions and loops on concrete outcomes.
use android_usb_tether_macos.Session.OneShot.Retries.{one_shot_loop-retried}
use android_usb_tether_macos.Session.OneShot.{
  Waited, one_shot_round, Attempt, wait_reconnect, wait_step, is_stop, one_shot_loop, session_run,
  half_second,
}
use android_usb_tether_macos.Session.Loop.Stopping.{session_loop_ends}
use android_usb_tether_macos.Ipc.{ipc_cmd_stop, ipc_cmd_enable}
use android_usb_tether_macos.Session.Outcome.{run_session_returns, again, gets_up}
use android_usb_tether_macos.Session.Loop.{
  LoopState, session_loop, obey, loop_init, Found, loop_round,
}
use android_usb_tether_macos.Session.Watch.Starts.{starts, obey-watch_loop, starts-watch_round}
use android_usb_tether_macos.Wire.{Bytes}
use android_usb_tether_macos.Session.Watch.{
  WatchFlags, WatchFound, watch_round, watch_init, watch_loop,
}
use android_usb_tether_macos.Session.Release.{Clears, run_session-Clears}
use android_usb_tether_macos.Session.Loop.Schedule.{Spaced, session_loop-Spaced}
use android_usb_tether_macos.Session.{Arguments, Outcomes, run_session}
use android_usb_tether_macos.Prelude.{
  ℕ, ◌∷◌, [], true, false, none, some, ◌≡◌, refl, List, Option, ◌*◌, arith, replicate, ◌++◌,
}

-- Every text is the address 192.168.42.100.
abbrev any_address : Bytes → Option ℕ
any_address text = some 0x642AA8C0

abbrev plain : Arguments
plain = record {
  no_route = false;
  no_dns = false;
  static_ip = [];
  static_gw = [];
  static_mask = [];
  ipc = true;
}

-- The lease fails, the rest goes well, and the phone is unplugged in the end.
abbrev unplugged : Outcomes
unplugged = record {
  driver_allocated = true;
  state_allocated = true;
  found = true;
  init_ok = true;
  mac_ok = true;
  dhcp = none;
  utun_ok = true;
  configured = true;
  lost_device = true;
  g_running = true;
}

run_session-Clears_example : Clears [] (run_session any_address plain unplugged).0
run_session-Clears_example = run_session-Clears any_address plain unplugged

run_session_returns_example :
    (run_session any_address plain unplugged).1
    ≡ again (gets_up any_address plain unplugged) true unplugged
run_session_returns_example = run_session_returns any_address plain unplugged

unplugged_again : (run_session any_address plain unplugged).1 ≡ 1
unplugged_again = run_session_returns any_address plain unplugged

abbrev up : LoopState
up = loop_init (record { g_running = true; running = true; g_watch_enabled = true })

abbrev at_second : ℕ → Option ℕ → Found
at_second n cmd = record {
  now = n;
  tx_bytes = 10 * n;
  rx_bytes = 20 * n;
  tx_bytes_again = 10 * n;
  rx_bytes_again = 20 * n;
  ui_dead = false;
  stop_trigger = false;
  command = cmd;
}

session_loop_ends_example :
    session_loop true false (at_second 100 (some ipc_cmd_stop) ∷ at_second 101 none ∷ []) up
    ≡ loop_round true false (at_second 100 (some ipc_cmd_stop)) up
session_loop_ends_example =
    session_loop_ends true false (at_second 100 (some ipc_cmd_stop)) (at_second 101 none ∷ []) up
      refl (omega arith) refl

abbrev minute : List Found
minute = at_second 100 none ∷ at_second 115 none ∷ at_second 130 none ∷ []

session_loop-Spaced_example : Spaced 0 (session_loop true false minute up).1
session_loop-Spaced_example = session_loop-Spaced true false minute up

abbrev on : WatchFlags
on = record { g_running = true; g_watch_enabled = true }

-- A round whose session comes back with the flags as they were.
abbrev found_with : Option ℕ → WatchFound
found_with cmd = record { command = cmd; result = 0; flags_after = on; retries = [] }

starts-watch_round_example :
    starts (watch_round true (found_with (some ipc_cmd_enable)) watch_init).1 ≡ 1
starts-watch_round_example = starts-watch_round true (found_with (some ipc_cmd_enable)) watch_init

obey-watch_loop_example :
    let f' = obey true ipc_cmd_stop up.flags in
    (f'.running ≡ false)
    × (starts
          (watch_loop true
            (found_with none ∷ [])
            (record { g_running = f'.g_running; g_watch_enabled = f'.g_watch_enabled })).1
        ≡ 1)
obey-watch_loop_example = obey-watch_loop true (found_with none) up.flags refl refl refl

-- A step of the wait that finds nothing, and one in which the stop button was used.
abbrev quiet : Waited
quiet = record { ui_died = false; trigger = false; command = none; no_signal = true }

abbrev stopped : Waited
stopped = record { ui_died = false; trigger = false; command = some ipc_cmd_stop; no_signal = true }

abbrev not_found : List Waited → Attempt
not_found ws = record { result = 1; running_after = true; waits = ws }

-- No phone is found twice; after the second time the stop button ends the wait at once.
one_shot_loop-retried_example :
    one_shot_loop
      ((not_found (replicate 6 quiet) ∷ []) ++ (not_found (stopped ∷ []) ∷ not_found [] ∷ []))
      true
    ≡ session_run ∷ (replicate 6 half_second ++ (session_run ∷ half_second ∷ []))
unfolding one_shot_round wait_reconnect wait_step is_stop
one_shot_loop-retried_example =
    one_shot_loop-retried (not_found (replicate 6 quiet) ∷ []) (not_found (stopped ∷ []))
      (not_found [] ∷ []) (omega arith, tt) (refl, tt) refl
