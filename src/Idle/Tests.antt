-- ===== src/Idle/Tests.antt =====
-- Runs of the gate, and the theorems at them.
use zdash.Prelude.{
  count, length, ◌≡◌, ◌≢◌, ◌⊎◌, refl, true, false, [], ◌∷◌, none, arith, head, codes,
}
use zdash.Prelude.Int.{pos, negsuc}
use zdash.Idle.{
  wake_fn, sleep_fn, state_new, conn_state, env_gogc, new_idle_gate, exit_on_idle, enter_sleep,
  wake, schedule_sleep, try_sleep_park, try_sleep_exit, call_exit, arm_session_locked, conn_add,
  conn_drop, live_insert,
}
use zdash.Idle.System.{System, leaving, exited, booted}
use zdash.Idle.Steps.{
  accept, close, wakes, inserts, schedules, grace_fires, tries, leaves, quits, cap_fires, ends,
  Reach, here, later,
}
use zdash.Idle.Safety.{connected_awake, exit_unserved, exit_race}
use zdash.Idle.Callbacks.{Orderly, callbacks_alternate}
use zdash.Idle.Rest.{Winds, start, more, weight}
use zdash.Idle.Rest.Endings.{CanGoOn, AtRest, cap_brings_rest}
use zdash.Prelude.{◌≤◌}
use zdash.Idle.Closing.{taken, end_session_reaches_all}
use zdash.Idle.{end_session_take}
use zdash.Prelude.{◌+◌, ◌<◌}
use zdash.Idle.Cap.{wake_capped, Uncapped, cap_lost}

-- `TestIdleGate_WakeOnFirstConnection`
two_connections :
    (conn_state 2 state_new (conn_state 1 state_new (enter_sleep (new_idle_gate 4 (pos 100))))).log
    ≡ wake_fn ∷ sleep_fn ∷ []
unfolding new_idle_gate enter_sleep conn_state
two_connections = refl

gogc_values :
    (env_gogc (codes "off") ≡ negsuc 0)
    × (env_gogc (codes "") ≡ pos 100)
    × (env_gogc (codes "50") ≡ pos 50)
    × (env_gogc (codes "fast") ≡ pos 100)
unfolding env_gogc zdash.Text.Numbers.parse_int
gogc_values = (refl, refl, refl, refl)

-- Connection 7 is accepted, wakes the gate, and is served.
abbrev accepted : (s : System) × Reach (booted 4 (pos 100) true) s
unfolding new_idle_gate exit_on_idle enter_sleep conn_add
accepted = (_, later here (accept 7 tt))

abbrev woken : (s : System) × Reach (booted 4 (pos 100) true) s
unfolding accepted wake arm_session_locked
woken = (_, later accepted.1 (wakes 7 {rest = []} refl head))

abbrev served : (s : System) × Reach (booted 4 (pos 100) true) s
unfolding woken live_insert
served = (_, later woken.1 (inserts 7 {rest = []} refl head))

connected_awake_example : served.0.gate.sleeping ≡ false
unfolding served
connected_awake_example = connected_awake (4, pos 100, true, served.1) refl (omega arith)

-- It is closed, the grace passes, and the gate parks.
abbrev closed : (s : System) × Reach (booted 4 (pos 100) true) s
unfolding served conn_drop
closed = (_, later served.1 (close 7 {rest = []} tt head))

abbrev armed : (s : System) × Reach (booted 4 (pos 100) true) s
unfolding closed schedule_sleep
armed = (_, later closed.1 (schedules 7 {rest = []} refl head))

abbrev fired : (s : System) × Reach (booted 4 (pos 100) true) s
unfolding armed
fired = (_, later armed.1 (grace_fires tt refl))

abbrev asleep : (s : System) × Reach (booted 4 (pos 100) true) s
unfolding fired try_sleep_park
asleep = (_, later fired.1 (tries {n = 0} refl refl))

-- `trySleep` tests the counter and goes on to exit.
abbrev last_test : (s : System) × Reach (booted 4 (pos 100) true) s
unfolding asleep try_sleep_exit
last_test = (_, later asleep.1 (leaves refl))

abbrev ended : (s : System) × Reach (booted 4 (pos 100) true) s
unfolding last_test call_exit
ended = (_, later last_test.1 (quits refl))

exit_unserved_example :
    (last_test.0.phase ≡ leaving)
    × (last_test.0.gate.exit_on_idle ≡ true)
    × (last_test.0.gate.sleeping ≡ true)
    × (last_test.0.serving ≡ [])
    × (last_test.0.gate.conns ≡ length last_test.0.waking + length last_test.0.inserting)
unfolding ended
exit_unserved_example =
    exit_unserved {t = ended.0} (4, pos 100, true, last_test.1) (quits refl) (λ e. cc) refl

exit_race_example :
    (t : System) × Reach asleep.0 t
    × (t.phase ≡ exited)
    × (t.gate.conns ≡ 1)
    × (t.waking ≡ 8 ∷ asleep.0.waking)
unfolding asleep
exit_race_example = exit_race asleep.0 8 refl refl refl

callbacks_alternate_example :
    Orderly asleep.0.phase (sleep_fn ∷ wake_fn ∷ sleep_fn ∷ []) asleep.0.gate.sleeping
unfolding asleep
callbacks_alternate_example = callbacks_alternate (4, pos 100, true, asleep.1)

wake_capped_example :
    let g = enter_sleep (new_idle_gate 4 (pos 100)) in
    ((wake g).sleeping ≡ false)
    × ((wake g).timer ≡ none)
    × ((wake g).sess ≢ none)
    × ((g.sess ≡ none) ⊎ ((wake g).sess ≡ g.sess))
    × ((wake g).conns ≡ g.conns)
wake_capped_example = wake_capped (enter_sleep (new_idle_gate 4 (pos 100)))

cap_lost_example : (t : System) × Uncapped 8 served.0 t
unfolding served
cap_lost_example = cap_lost served.0 7 8 refl refl refl refl refl refl

-- The cap fires, and its `endSession` closes the connection.
abbrev capped : (s : System) × Reach (booted 4 (pos 100) true) s
unfolding served
capped = (_, later served.1 (cap_fires tt refl))

abbrev ending : (s : System) × Reach (booted 4 (pos 100) true) s
unfolding capped end_session_take
ending = (_, later capped.1 (ends {n = 0} refl refl))

abbrev cut_off : (s : System) × Reach (booted 4 (pos 100) true) s
unfolding ending conn_drop
cut_off = (_, later ending.1 (close 7 {rest = []} tt head))

capped_run : Winds served.1 3 cut_off.0 cut_off.1
unfolding cut_off
capped_run =
    more (more (more start (cap_fires tt refl) tt) (ends {n = 0} refl refl) tt)
      (close 7 {rest = []} tt head) (omega arith)

cap_brings_rest_example : (3 ≤ weight served.0) × (CanGoOn cut_off.1 ⊎ AtRest cut_off.0)
unfolding served
cap_brings_rest_example =
    cap_brings_rest 4 (pos 100) true served.1 (refl, tt) refl refl (λ e. cc)
      (record { scheduled = refl; unarmed = refl; unfired = refl; unorphaned = refl }) capped_run

end_session_reaches_all_example :
    0 < count 7 (end_session_take served.0.gate).1 + count 7 (taken served.1)
unfolding served
end_session_reaches_all_example =
    end_session_reaches_all 4 (pos 100) true served.1 7 (refl, tt) (omega arith)
