-- ===== src/Session/Watch.antt =====
-- src/main.c, the loop of `main` in watch mode, with the wait between two attempts.
pub mod Starts
use android_usb_tether_macos.Ipc.{ipc_cmd_disable, ipc_cmd_enable}
use android_usb_tether_macos.Prelude.{
  ℕ, ◌∷◌, [], ◌++◌, Bool, true, false, pos, negsuc, none, some, ◌≡◌, suc, zero, Option, List,
  if◌then◌else◌, ◌&&◌, ◌==◌,
}

-- `g_running` and `g_watch_enabled`.
pub record WatchFlags : Type 0 where
  pub g_running : Bool
  pub g_watch_enabled : Bool

pub data WatchAct : Type 0 where
  told_idle : WatchAct
  told_watching : WatchAct
  session_started : WatchAct
  slept : WatchAct

-- What a step of the wait finds: the command, where there is a server, and `g_running` after it.
pub record Retry : Type 0 where
  pub command : Option ℕ
  pub still_running : Bool

-- What a round finds: the command, and if a session is run its result, the flags that it leaves, and
-- what the wait after it finds.
pub record WatchFound : Type 0 where
  pub command : Option ℕ
  pub result : ℕ
  pub flags_after : WatchFlags
  pub retries : List Retry

-- The command in the idle loop.
unfoldable pub obey_idle : Option ℕ → WatchFlags → WatchFlags × List WatchAct
obey_idle none f = (f, [])
obey_idle (some cmd) f =
    if cmd == ipc_cmd_disable
    then (record f { g_watch_enabled = false }, told_idle ∷ [])
    else if cmd == ipc_cmd_enable
    then (record f { g_watch_enabled = true }, told_watching ∷ [])
    else (f, [])

-- The command in the wait: an enable command is not answered there.
unfoldable pub obey_waiting : Option ℕ → WatchFlags → WatchFlags × List WatchAct
obey_waiting none f = (f, [])
obey_waiting (some cmd) f =
    if cmd == ipc_cmd_disable
    then (record f { g_watch_enabled = false }, told_idle ∷ [])
    else if cmd == ipc_cmd_enable
    then (record f { g_watch_enabled = true }, [])
    else (f, [])

-- At most `n` steps of half a second, while the program runs and is enabled.
unfoldable pub wait_retry : ℕ → List Retry → WatchFlags → WatchFlags × List WatchAct
wait_retry zero rs f = (f, [])
wait_retry (suc n) [] f = (f, [])
wait_retry (suc n) (r ∷ rs) f =
    let (f', acts) = obey_waiting r.command f in
    let (t, more) = wait_retry n rs (record f' { g_running = f'.g_running && r.still_running }) in
    if f.g_running && f.g_watch_enabled then (t, acts ++ (slept ∷ more)) else (f, [])

-- After a session: a wait if it is to be tried again.
unfoldable pub after_session : Bool → WatchFound → WatchFlags → WatchFlags × List WatchAct
after_session ipc x f =
    if (x.result == 1) && f.g_running
    then (let (t, acts) = wait_retry 6 x.retries f in
        (t, (if ipc && f.g_watch_enabled then told_watching ∷ [] else []) ++ acts))
    else (f, [])

-- One round, entered while `g_running`; `ipc` tells whether there is a server.
unfoldable pub watch_round : Bool → WatchFound → WatchFlags → WatchFlags × List WatchAct
watch_round ipc x f =
    let (f', acts) = obey_idle x.command f in
    let (t, more) = after_session ipc x x.flags_after in
    if f'.g_watch_enabled then (t, acts ++ (session_started ∷ more)) else (f', acts ++ (slept ∷ []))

unfoldable pub watch_loop : Bool → List WatchFound → WatchFlags → WatchFlags × List WatchAct
watch_loop ipc [] f = (f, [])
watch_loop ipc (x ∷ xs) f =
    let (f', acts) = watch_round ipc x f in
    let (t, more) = watch_loop ipc xs f' in if f.g_running then (t, acts ++ more) else (f, [])

-- `main` starts the mode with nothing enabled.
abbrev pub watch_init : WatchFlags
watch_init = record { g_running = true; g_watch_enabled = false }
