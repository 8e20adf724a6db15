-- ===== src/Session/OneShot/Retries.antt =====
-- How often and how far apart src/main.c runs sessions outside watch mode.
use android_usb_tether_macos.Session.OneShot.{
  one_shot_loop, one_shot_round, wait_reconnect, wait_step, is_stop, Waited, Attempt, OneShotAct,
  session_run, half_second,
}
use mathlib.Core.List.{append-nil}
use android_usb_tether_macos.Prelude.{
  ℕ, ◌∷◌, [], ◌++◌, Bool, true, false, ◌≡◌, suc, zero, List, All, length, ◌≤◌, ◌||◌, ◌==◌, not,
  refl, arith, replicate, Bool-cases, inl, inr,
}

-- What a step of the wait ends the program for.
abbrev pub ends_wait : Waited → Bool
ends_wait w = w.ui_died || (w.trigger || (is_stop w.command || not w.no_signal))

-- Whether one of the first `n` steps is such a step.
abbrev pub wait_ends : ℕ → List Waited → Bool
wait_ends zero ws = false
wait_ends (suc n) [] = false
wait_ends (suc n) (w ∷ ws) = ends_wait w || wait_ends n ws

-- A round after which there is no other: the session did not ask for another one, or the program was stopped in it
-- or in the three seconds after it.
abbrev pub is_last : Attempt → Bool
is_last x = (x.result == 0) || (not x.running_after || wait_ends 6 x.waits)

-- A session and six times half a second.
abbrev pub retried : List Attempt → List OneShotAct
retried [] = []
retried (x ∷ xs) = session_run ∷ (replicate 6 half_second ++ retried xs)

wait_step_lem : (w : Waited) → wait_step w true ≡ not (ends_wait w)
unfolding wait_step
wait_step_lem w = ground arith

wait_reconnect_stopped : (n : ℕ) (ws : List Waited) → wait_reconnect n ws false ≡ (false, [])
unfolding wait_reconnect
wait_reconnect_stopped zero ws = refl
wait_reconnect_stopped (suc n) [] = refl
wait_reconnect_stopped (suc n) (w ∷ ws) = refl

wait_reconnect_running :
    (n : ℕ) (ws : List Waited) → (wait_reconnect n ws true).0 ≡ not (wait_ends n ws)
unfolding wait_reconnect
wait_reconnect_running zero ws = refl
wait_reconnect_running (suc n) [] = refl
wait_reconnect_running (suc n) (w ∷ ws) = elim (Bool-cases (ends_wait w)) [
  | inl e ↦ rw (wait_step_lem w, e, wait_reconnect_stopped n ws) refl
  | inr e ↦ rw (wait_step_lem w, e) (wait_reconnect_running n ws)
]

-- Six steps that end nothing take three seconds.
wait_reconnect_whole :
    (n : ℕ) (ws : List Waited)
    → n ≤ length ws
    → wait_ends n ws ≡ false
    → wait_reconnect n ws true ≡ (true, replicate n half_second)
unfolding wait_reconnect
wait_reconnect_whole zero ws h e = refl
wait_reconnect_whole (suc n) [] h e = ground arith
wait_reconnect_whole (suc n) (w ∷ ws) h e =
    let here : ends_wait w ≡ false = ground arith in
    let later : wait_ends n ws ≡ false = ground arith in
    rw (wait_step_lem w, here, wait_reconnect_whole n ws (omega arith) later) refl

one_shot_round_again :
    (x : Attempt)
    → 6 ≤ length x.waits
    → is_last x ≡ false
    → one_shot_round x ≡ (true, session_run ∷ replicate 6 half_second)
unfolding one_shot_round
one_shot_round_again x h e =
    let asked : (x.result == 0) ≡ false = ground arith in
    let running : x.running_after ≡ true = ground arith in
    let quiet : wait_ends 6 x.waits ≡ false = ground arith in
    rw (asked, running, wait_reconnect_whole 6 x.waits h quiet) refl

one_shot_round_last : (x : Attempt) → is_last x ≡ true → (one_shot_round x).0 ≡ false
unfolding one_shot_round
one_shot_round_last x e = elim (Bool-cases (x.result == 0)) [
  | inl z ↦ rw z refl
  | inr z ↦ elim (Bool-cases x.running_after) [
    | inr r ↦ rw (z, r, wait_reconnect_stopped 6 x.waits) refl
    | inl r ↦
        let ended : wait_ends 6 x.waits ≡ true = ground arith in
        rw (z, r, wait_reconnect_running 6 x.waits, ended) refl
  ]
]

one_shot_loop_over : (xs : List Attempt) → one_shot_loop xs false ≡ []
unfolding one_shot_loop
one_shot_loop_over [] = refl
one_shot_loop_over (x ∷ xs) = refl

-- Outside watch mode a session is run again three seconds after it, in six steps of half a second, up to the
-- first round whose session does not ask for another one, or in which the program is stopped: by the session or
-- a signal, or in one of the six steps by a process of the user interface that is gone, the trigger file or a
-- stop command. That round is the last one, and nothing of what would come later is done. The condition says that
-- what each of the six steps finds is given for the rounds before it.
pub one_shot_loop-retried :
    (xs : List Attempt) (last : Attempt) (later : List Attempt)
    → All (λ x. 6 ≤ length x.waits) xs
    → All (λ x. is_last x ≡ false) xs
    → is_last last ≡ true
    → one_shot_loop (xs ++ (last ∷ later)) true ≡ retried xs ++ (one_shot_round last).1
unfolding one_shot_loop
one_shot_loop-retried [] last later n h e =
    rw (one_shot_round_last last e, one_shot_loop_over later) (append-nil (one_shot_round last).1)
one_shot_loop-retried (x ∷ xs) last later n h e =
    rw (one_shot_round_again x n.0 h.0, one_shot_loop-retried xs last later n.1 h.1 e) refl
