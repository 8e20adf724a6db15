-- ===== src/Session/Loop.antt =====
-- src/main.c, the loop of the main thread in `run_session`: keep-alives, statistics and the ways to stop.
pub mod Stopping
pub mod Schedule
use android_usb_tether_macos.Ipc.{ipc_cmd_stop, ipc_cmd_disable, ipc_cmd_enable}
use android_usb_tether_macos.Prelude.{
  ℕ, ◌∷◌, [], ◌++◌, Bool, true, false, pos, negsuc, none, some, ◌≡◌, suc, zero, List, Option,
  if◌then◌else◌, not, leb, ◌&&◌, ltb, ◌==◌, ◌-◌, ◌||◌, ◌+◌, ◌^◌, ◌%◌,
}

-- `g_running`, `running` of the bridge, and `g_watch_enabled`.
pub record Flags : Type 0 where
  pub g_running : Bool
  pub running : Bool
  pub g_watch_enabled : Bool

pub data LoopAct : Type 0 where
  keepalive_sent : ℕ → LoopAct
  stats_written : ℕ → ℕ → ℕ → LoopAct

-- The locals of the loop. A time is in seconds and a clock that goes back counts as not moved.
pub record LoopState : Type 0 where
  pub flags : Flags
  pub last_keepalive : ℕ
  pub last_stats : ℕ
  pub prev_tx_bytes : ℕ
  pub prev_rx_bytes : ℕ

-- What a round finds: the time, the counters, which are loaded twice, the UI process, the trigger file, and the command of
-- `ipc_server_poll` where there is a server.
pub record Found : Type 0 where
  pub now : ℕ
  pub tx_bytes : ℕ
  pub rx_bytes : ℕ
  pub tx_bytes_again : ℕ
  pub rx_bytes_again : ℕ
  pub ui_dead : Bool
  pub stop_trigger : Bool
  pub command : Option ℕ

-- `a - b` on `uint64_t`.
abbrev pub sub_u64 : ℕ → ℕ → ℕ
sub_u64 a b = (a + (2 ^ 64 - b)) % 2 ^ 64

-- A stop of the whole program.
abbrev pub stop_all : Bool → Flags → Flags
stop_all stop f = if stop then record f { g_running = false; running = false } else f

unfoldable pub obey : Bool → ℕ → Flags → Flags
obey watch_mode cmd f =
    if (cmd == ipc_cmd_stop) || (cmd == ipc_cmd_disable)
    then record {
      g_running = f.g_running && watch_mode;
      running = false;
      g_watch_enabled = f.g_watch_enabled && not (cmd == ipc_cmd_disable);
    }
    else if cmd == ipc_cmd_enable
    then record f { g_watch_enabled = true }
    else f

abbrev pub obey_if : Bool → Option ℕ → Flags → Flags
obey_if watch_mode none f = f
obey_if watch_mode (some cmd) f = obey watch_mode cmd f

module _ (watch_mode has_ui : Bool) where
  -- The checks that are made once a second; `has_ui` is `g_ui_pid > 0`.
  unfoldable pub check_flags : Found → Flags → Flags
  check_flags x f =
      obey_if watch_mode x.command
        (stop_all x.stop_trigger (stop_all (not watch_mode && (has_ui && x.ui_dead)) f))

  -- A keep-alive if the last one is 30 seconds ago.
  unfoldable pub keepalive_round : Found → LoopState → LoopState × List LoopAct
  keepalive_round x s =
      if leb 30 (x.now - s.last_keepalive)
      then (record s { last_keepalive = x.now }, keepalive_sent x.now ∷ [])
      else (s, [])

  -- The statistics, from the second time on.
  unfoldable pub stats_acts : Found → LoopState → List LoopAct
  stats_acts x s =
      if ltb 0 s.last_stats
      then stats_written (x.now - s.last_stats) (sub_u64 x.tx_bytes s.prev_tx_bytes)
          (sub_u64 x.rx_bytes s.prev_rx_bytes)
        ∷ []
      else []

  unfoldable pub stats_round : Found → LoopState → LoopState × List LoopAct
  stats_round x s =
      if leb 1 (x.now - s.last_stats)
      then (
        record s {
          flags = check_flags x s.flags;
          prev_tx_bytes = x.tx_bytes_again;
          prev_rx_bytes = x.rx_bytes_again;
          last_stats = x.now;
        },
        stats_acts x s,
      )
      else (s, [])

  unfoldable pub loop_round : Found → LoopState → LoopState × List LoopAct
  loop_round x s =
      let (s', sent) = keepalive_round x s in
      let (t, written) = stats_round x s' in (t, sent ++ written)

  -- The rounds, until a flag is down or there is nothing more to find.
  unfoldable pub session_loop : List Found → LoopState → LoopState × List LoopAct
  session_loop [] s = (s, [])
  session_loop (x ∷ xs) s =
      let (s', acts) = loop_round x s in
      let (t, more) = session_loop xs s' in
      if s.flags.g_running && s.flags.running then (t, acts ++ more) else (s, [])

abbrev pub loop_init : Flags → LoopState
loop_init f = record {
  flags = f;
  last_keepalive = 0;
  last_stats = 0;
  prev_tx_bytes = 0;
  prev_rx_bytes = 0;
}
