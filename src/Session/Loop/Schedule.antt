-- ===== src/Session/Loop/Schedule.antt =====
-- When the main loop of src/main.c sends keep-alives.
use mathlib.Core.List.{append_assoc}
use android_usb_tether_macos.Session.Loop.{
  session_loop, loop_round, Found, stats_round, LoopAct, LoopState, keepalive_sent, stats_written,
  keepalive_round, stats_acts,
}
use android_usb_tether_macos.Prelude.{
  ℕ, ◌∷◌, [], ◌++◌, Bool, inl, inr, List, Bool-cases, ◌+◌, ◌&&◌, ◌≤◌, leb, ◌-◌, ltb, arith, leb→le,
}

-- The keep-alives among the acts come at least 30 seconds after one another, the first one after `t`.
abbrev pub Spaced : ℕ → List LoopAct → Type 0
Spaced t [] = Unit
Spaced t (keepalive_sent n ∷ acts) = (t + 30 ≤ n) × Spaced n acts
Spaced t (stats_written e tx rx ∷ acts) = Spaced t acts

module _ (watch_mode has_ui : Bool) where
  stats_acts-Spaced :
      (x : Found) (s : LoopState) (t : ℕ) (acts : List LoopAct)
      → Spaced t acts
      → Spaced t (stats_acts watch_mode has_ui x s ++ acts)
  unfolding stats_acts
  stats_acts-Spaced x s t acts h = elim (Bool-cases (ltb 0 s.last_stats)) [
    | inl e ↦ rw e h
    | inr e ↦ rw e h
  ]

  stats_round-Spaced :
      (x : Found) (s : LoopState) (acts : List LoopAct)
      → Spaced (stats_round watch_mode has_ui x s).0.last_keepalive acts
      → Spaced s.last_keepalive ((stats_round watch_mode has_ui x s).1 ++ acts)
  unfolding stats_round
  stats_round-Spaced x s acts h = elim (Bool-cases (leb 1 (x.now - s.last_stats))) [
    | inl e ↦ rw e (stats_acts-Spaced x s s.last_keepalive acts (rw e at h))
    | inr e ↦ rw e (rw e at h)
  ]

  keepalive_round-Spaced :
      (x : Found) (s : LoopState) (acts : List LoopAct)
      → Spaced (keepalive_round watch_mode has_ui x s).0.last_keepalive acts
      → Spaced s.last_keepalive ((keepalive_round watch_mode has_ui x s).1 ++ acts)
  unfolding keepalive_round
  keepalive_round-Spaced x s acts h = elim (Bool-cases (leb 30 (x.now - s.last_keepalive))) [
    | inl e ↦ rw e (omega (arith, leb→le _ _ e), rw e at h)
    | inr e ↦ rw e (rw e at h)
  ]

  loop_round-Spaced :
      (x : Found) (s : LoopState) (acts : List LoopAct)
      → Spaced (loop_round watch_mode has_ui x s).0.last_keepalive acts
      → Spaced s.last_keepalive ((loop_round watch_mode has_ui x s).1 ++ acts)
  unfolding loop_round
  loop_round-Spaced x s acts h =
      let s' = (keepalive_round watch_mode has_ui x s).0 in
      rw append_assoc (keepalive_round-Spaced x s _ (stats_round-Spaced x s' acts h))

  -- However the rounds come and whatever they find, the keep-alives of a session come at least 30 seconds
  -- after one another.
  pub session_loop-Spaced :
      (xs : List Found) (s : LoopState)
      → Spaced s.last_keepalive (session_loop watch_mode has_ui xs s).1
  unfolding session_loop
  session_loop-Spaced [] s = tt
  session_loop-Spaced (x ∷ xs) s = elim (Bool-cases (s.flags.g_running && s.flags.running)) [
    | inr e ↦ rw e tt
    | inl e ↦ rw e (loop_round-Spaced x s _ (session_loop-Spaced xs _))
  ]
