-- ===== src/Session/Loop/Stopping.antt =====
-- What ends a session of src/main.c, and what ends the program.
use mathlib.Core.List.{append-nil}
use android_usb_tether_macos.Ipc.{ipc_cmd_stop, ipc_cmd_disable, ipc_cmd_enable}
use android_usb_tether_macos.Session.Loop.{
  Found, check_flags, obey, Flags, session_loop, loop_round, keepalive_round, LoopState,
  stats_round,
}
use android_usb_tether_macos.Prelude.{
  ℕ, Bool, false, none, some, ◌≡◌, Option, ◌||◌, ◌==◌, ◌&&◌, not, Option-cases, inl, arith, inr,
  List, true, ◌≤◌, [], ◌-◌, ◌∷◌, refl, Bool-cases, leb, ◌∙◌,
}

abbrev pub is_command : ℕ → Option ℕ → Bool
is_command c none = false
is_command c (some d) = d == c

-- A reason to end the session that does not come from the server.
abbrev pub is_dead : Bool → Bool → Found → Bool
is_dead watch_mode has_ui x = x.stop_trigger || (not watch_mode && (has_ui && x.ui_dead))

-- The request to end the session that comes from the server.
abbrev pub is_ended : Option ℕ → Bool
is_ended cmd = is_command ipc_cmd_stop cmd || is_command ipc_cmd_disable cmd

-- The flags after a check.
pub record Checked (watch_mode has_ui : Bool) (x : Found) (f f' : Flags) : Type 0 where
  pub running_eq :
      f'.running ≡ (f.running && not (is_dead watch_mode has_ui x || is_ended x.command))
  pub g_running_eq :
      f'.g_running
      ≡ (f.g_running && not (is_dead watch_mode has_ui x || (is_ended x.command && not watch_mode)))
  pub g_watch_enabled_eq : f'.g_watch_enabled ≡ (
      is_command ipc_cmd_enable x.command
      || (f.g_watch_enabled && not (is_command ipc_cmd_disable x.command)))

-- A check lowers `running` for a dead UI process outside watch mode, for the trigger file and for a stop
-- or disable command; it lowers `g_running` for the first two, and for a command only outside watch mode; it
-- raises the watch flag for an enable command and lowers it for a disable command, and for nothing else.
pub check_flags-Checked :
    (watch_mode has_ui : Bool) (x : Found) (f : Flags)
    → Checked watch_mode has_ui x f (check_flags watch_mode has_ui x f)
unfolding check_flags obey
check_flags-Checked watch_mode has_ui x f = elim (Option-cases x.command) [
  | inl e ↦ rw e (record {
    running_eq = ground arith;
    g_running_eq = ground arith;
    g_watch_enabled_eq = ground arith;
  })
  | inr (c, e) ↦ rw e (record {
    running_eq = ground arith;
    g_running_eq = ground arith;
    g_watch_enabled_eq = ground arith;
  })
]

module _ (watch_mode has_ui : Bool) where
  session_loop-down :
      (xs : List Found) (s : LoopState)
      → s.flags.running ≡ false
      → session_loop watch_mode has_ui xs s ≡ (s, [])
  unfolding session_loop
  session_loop-down [] s e = refl
  session_loop-down (x ∷ xs) s e =
      let down : (s.flags.g_running && s.flags.running) ≡ false = ground arith in rw down refl

  stats_round_down :
      (x : Found) (s : LoopState)
      → 1 ≤ x.now - s.last_stats
      → (is_dead watch_mode has_ui x || is_ended x.command) ≡ true
      → (stats_round watch_mode has_ui x s).0.flags.running ≡ false
  unfolding stats_round
  stats_round_down x s due e =
      let on : leb 1 (x.now - s.last_stats) ≡ true = ground arith in
      rw on ((check_flags-Checked watch_mode has_ui x s.flags).running_eq ∙ ground arith)

  loop_round_down :
      (x : Found) (s : LoopState)
      → 1 ≤ x.now - s.last_stats
      → (is_dead watch_mode has_ui x || is_ended x.command) ≡ true
      → (loop_round watch_mode has_ui x s).0.flags.running ≡ false
  unfolding loop_round keepalive_round
  loop_round_down x s due e = elim (Bool-cases (leb 30 (x.now - s.last_keepalive))) [
    | inl k ↦ rw k (stats_round_down x (record s { last_keepalive = x.now }) due e)
    | inr k ↦ rw k (stats_round_down x s due e)
  ]

  -- A session that runs ends in the first round that makes the check and finds a stop or disable command,
  -- the trigger file or, outside watch mode, a dead UI process: nothing that later rounds would find is looked at.
  pub session_loop_ends :
      (x : Found) (xs : List Found) (s : LoopState)
      → (s.flags.g_running && s.flags.running) ≡ true
      → 1 ≤ x.now - s.last_stats
      → (is_dead watch_mode has_ui x || is_ended x.command) ≡ true
      → session_loop watch_mode has_ui (x ∷ xs) s ≡ loop_round watch_mode has_ui x s
  unfolding session_loop
  session_loop_ends x xs s up due e =
      rw
        (
          up,
          session_loop-down xs (loop_round watch_mode has_ui x s).0 (loop_round_down x s due e),
          append-nil,
        )
        refl
