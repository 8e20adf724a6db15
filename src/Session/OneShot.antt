-- ===== src/Session/OneShot.antt =====
-- src/main.c, the loop of `main` outside watch mode, with the wait between two sessions.
pub mod Retries
use android_usb_tether_macos.Ipc.{ipc_cmd_stop}
use android_usb_tether_macos.Prelude.{
  ℕ, ◌∷◌, [], ◌++◌, Bool, true, false, none, some, suc, zero, Option, List, if◌then◌else◌, ◌&&◌,
  ◌||◌, ◌==◌, not,
}

pub data OneShotAct : Type 0 where
  session_run : OneShotAct
  half_second : OneShotAct

-- What a step of the wait finds: whether the process of the user interface is given and gone, the trigger
-- file, the command, where there is a server, and whether no signal has come.
pub record Waited : Type 0 where
  pub ui_died : Bool
  pub trigger : Bool
  pub command : Option ℕ
  pub no_signal : Bool

-- A session's result, `g_running` after it, and what the wait finds.
pub record Attempt : Type 0 where
  pub result : ℕ
  pub running_after : Bool
  pub waits : List Waited

unfoldable pub is_stop : Option ℕ → Bool
is_stop none = false
is_stop (some cmd) = cmd == ipc_cmd_stop

-- `g_running` after a step.
unfoldable pub wait_step : Waited → Bool → Bool
wait_step w g_running =
    let g_running1 = if w.ui_died then false else g_running in
    let g_running2 = if w.trigger then false else g_running1 in
    let g_running3 = if is_stop w.command then false else g_running2 in g_running3 && w.no_signal

-- At most `n` steps, while the program runs.
unfoldable pub wait_reconnect : ℕ → List Waited → Bool → Bool × List OneShotAct
wait_reconnect zero ws g_running = (g_running, [])
wait_reconnect (suc n) [] g_running = (g_running, [])
wait_reconnect (suc n) (w ∷ ws) g_running =
    let (after, acts) = wait_reconnect n ws (wait_step w g_running) in
    if g_running then (after, half_second ∷ acts) else (g_running, [])

-- One round; it tells whether there is another one.
unfoldable pub one_shot_round : Attempt → Bool × List OneShotAct
one_shot_round x =
    let (g_running, acts) = wait_reconnect 6 x.waits x.running_after in
    if x.result == 0 then (false, session_run ∷ []) else (g_running, session_run ∷ acts)

-- The loop, entered while `g_running`.
unfoldable pub one_shot_loop : List Attempt → Bool → List OneShotAct
one_shot_loop [] goes_on = []
one_shot_loop (x ∷ xs) goes_on =
    let (again, acts) = one_shot_round x in
    let more = one_shot_loop xs again in if goes_on then acts ++ more else []
