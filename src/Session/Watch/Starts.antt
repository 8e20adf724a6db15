-- ===== src/Session/Watch/Starts.antt =====
-- When src/main.c starts a session in watch mode.
use android_usb_tether_macos.Session.Loop.{obey, Flags}
use android_usb_tether_macos.Ipc.{ipc_cmd_enable, ipc_cmd_disable, ipc_cmd_stop}
use android_usb_tether_macos.Session.Loop.Stopping.{is_command}
use android_usb_tether_macos.Session.Watch.{
  watch_loop, wait_retry, after_session, obey_waiting, watch_round, obey_idle, Retry, WatchAct,
  WatchFound, WatchFlags, session_started, told_idle, told_watching, slept,
}
use android_usb_tether_macos.Prelude.{
  ℕ, ◌∷◌, [], ◌++◌, Bool, true, false, none, some, ◌≡◌, suc, zero, Option, List, ◌∙◌, ◌+◌, All,
  if◌then◌else◌, Bool-cases, arith, refl, ◌==◌, ◌&&◌, inr, inl, ◌||◌, not,
}

abbrev pub starts : List WatchAct → ℕ
starts [] = 0
starts (session_started ∷ acts) = suc (starts acts)
starts (told_idle ∷ acts) = starts acts
starts (told_watching ∷ acts) = starts acts
starts (slept ∷ acts) = starts acts

-- The watch flag after a command.
abbrev pub enabled_after : Option ℕ → Bool → Bool
enabled_after cmd enabled =
    is_command ipc_cmd_enable cmd || (enabled && not (is_command ipc_cmd_disable cmd))

starts-append : (acts more : List WatchAct) → starts (acts ++ more) ≡ starts acts + starts more
starts-append [] more = omega arith
starts-append (session_started ∷ acts) more = omega (arith, starts-append acts more)
starts-append (told_idle ∷ acts) more = starts-append acts more
starts-append (told_watching ∷ acts) more = starts-append acts more
starts-append (slept ∷ acts) more = starts-append acts more

starts-obey_idle : (cmd : Option ℕ) (f : WatchFlags) → starts (obey_idle cmd f).1 ≡ 0
unfolding obey_idle
starts-obey_idle none f = refl
starts-obey_idle (some cmd) f = ground arith

obey_idle_enabled :
    (cmd : Option ℕ) (f : WatchFlags)
    → (obey_idle cmd f).0.g_watch_enabled ≡ enabled_after cmd f.g_watch_enabled
unfolding obey_idle
obey_idle_enabled none f = ground arith
obey_idle_enabled (some cmd) f = ground arith

starts-obey_waiting : (cmd : Option ℕ) (f : WatchFlags) → starts (obey_waiting cmd f).1 ≡ 0
unfolding obey_waiting
starts-obey_waiting none f = refl
starts-obey_waiting (some cmd) f = ground arith

starts-wait_retry : (n : ℕ) (rs : List Retry) (f : WatchFlags) → starts (wait_retry n rs f).1 ≡ 0
unfolding wait_retry
starts-wait_retry zero rs f = refl
starts-wait_retry (suc n) [] f = refl
starts-wait_retry (suc n) (r ∷ rs) f = elim (Bool-cases (f.g_running && f.g_watch_enabled)) [
  | inr e ↦ rw e refl
  | inl e ↦
      rw (e, starts-append (obey_waiting r.command f).1)
        (omega (arith, starts-obey_waiting r.command f, starts-wait_retry n rs _))
]

starts-after_session :
    (ipc : Bool) (x : WatchFound) (f : WatchFlags) → starts (after_session ipc x f).1 ≡ 0
unfolding after_session
starts-after_session ipc x f = elim (Bool-cases ((x.result == 1) && f.g_running)) [
  | inr e ↦ rw e refl
  | inl e ↦ elim (Bool-cases (ipc && f.g_watch_enabled)) [
    | inl g ↦ rw (e, g) (starts-wait_retry 6 x.retries f)
    | inr g ↦ rw (e, g) (starts-wait_retry 6 x.retries f)
  ]
]

-- A round of watch mode starts exactly one session if the mode is enabled, or is being enabled by the
-- command of this round, and not disabled by it; otherwise it starts none.
pub starts-watch_round :
    (ipc : Bool) (x : WatchFound) (f : WatchFlags)
    → starts (watch_round ipc x f).1 ≡ (if enabled_after x.command f.g_watch_enabled then 1 else 0)
unfolding watch_round
starts-watch_round ipc x f =
    let n = starts-obey_idle x.command f in
    let a = starts-after_session ipc x x.flags_after in
    elim (Bool-cases (enabled_after x.command f.g_watch_enabled)) [
      | inl e ↦
          rw (obey_idle_enabled x.command f, e, starts-append (obey_idle x.command f).1)
            (omega (arith, n, a))
      | inr e ↦
          rw (obey_idle_enabled x.command f, e, starts-append (obey_idle x.command f).1)
            (omega (arith, n))
    ]

starts_if :
    (b : Bool) (x : WatchFlags × List WatchAct) (f : WatchFlags)
    → starts x.1 ≡ 0
    → starts (if b then x else (f, [])).1 ≡ 0
starts_if true x f h = h
starts_if false x f h = refl

watch_round_idle :
    (ipc : Bool) (x : WatchFound) (f : WatchFlags)
    → enabled_after x.command f.g_watch_enabled ≡ false
    → (watch_round ipc x f).0.g_watch_enabled ≡ false
unfolding watch_round
watch_round_idle ipc x f e = let off = obey_idle_enabled x.command f ∙ e in rw off off

-- While no round has an enable command, a mode that is not enabled starts no session.
watch_loop_idle :
    (ipc : Bool) (xs : List WatchFound) (f : WatchFlags)
    → f.g_watch_enabled ≡ false
    → All (λ x. is_command ipc_cmd_enable x.command ≡ false) xs
    → starts (watch_loop ipc xs f).1 ≡ 0
unfolding watch_loop
watch_loop_idle ipc [] f e h = refl
watch_loop_idle ipc (x ∷ xs) f e h =
    let off : enabled_after x.command f.g_watch_enabled ≡ false = rw (h.0, e) refl in
    let one : starts (watch_round ipc x f).1 ≡ 0 = starts-watch_round ipc x f ∙ rw off refl in
    let rest = watch_loop_idle ipc xs (watch_round ipc x f).0 (watch_round_idle ipc x f off) h.1 in
    starts_if f.g_running _ f (starts-append (watch_round ipc x f).1 _ ∙ omega (arith, one, rest))

-- A stop command to a session in watch mode ends the session but not the program or the mode: while the program
-- runs and the mode is enabled, the loop goes into its next round and starts a session there, unless
-- the round's own command disables the mode.
pub obey-watch_loop :
    (ipc : Bool) (x : WatchFound) (f : Flags)
    → f.g_running ≡ true
    → f.g_watch_enabled ≡ true
    → is_command ipc_cmd_disable x.command ≡ false
    → let f' = obey true ipc_cmd_stop f in
      (f'.running ≡ false)
      × (starts
            (watch_loop ipc
              (x ∷ [])
              (record { g_running = f'.g_running; g_watch_enabled = f'.g_watch_enabled })).1
          ≡ 1)
unfolding obey watch_loop
obey-watch_loop ipc x f g e h =
    let flags : WatchFlags = record { g_running = true; g_watch_enabled = true } in
    let one : starts (watch_round ipc x flags).1 ≡ 1 =
      starts-watch_round ipc x flags ∙ ground arith in
    (refl, rw (g, e) (starts-append (watch_round ipc x flags).1 [] ∙ omega (arith, one)))
