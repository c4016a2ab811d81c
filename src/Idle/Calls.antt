-- ===== src/Idle/Calls.antt =====
-- Which callback a step of the gate calls, and what the step makes of `sleeping`.
use zdash.Prelude.{◌≡◌, ◌⊎◌, inl, refl, Bool, true, false, List, ◌∷◌, arith}
use zdash.Idle.{
  Effect, wake_fn, sleep_fn, exit_fn, wake, schedule_sleep, try_sleep_park, try_sleep_exit,
  call_exit, end_session_take, arm_session_locked, conn_add, conn_drop, live_insert, live_delete,
}
use zdash.Idle.System.{System}
use zdash.Idle.Steps.{Step, accept, close, wakes, schedules, tries, leaves, quits, ends, rearms}
use zdash.Idle.Invariant.{Inv}

-- The gate as a switch: what is called, if anything, and how that goes with `sleeping`.
abbrev pub Switches : List Effect → Bool → List Effect → Bool → Type 0
Switches l b l' b' =
    ((l' ≡ l) × (b' ≡ b))
    ⊎ ((l' ≡ wake_fn ∷ l) × (b ≡ true) × (b' ≡ false))
    ⊎ ((l' ≡ sleep_fn ∷ l) × (b ≡ false) × (b' ≡ true))
    ⊎ ((l' ≡ exit_fn ∷ l) × (b ≡ true) × (b' ≡ true))

abbrev pub StepSwitches : System → System → Type 0
StepSwitches s t = Switches s.gate.log s.gate.sleeping t.gate.log t.gate.sleeping

pub Step-Switches : {s t : System} → Step s t → Inv s → StepSwitches s t
unfolding conn_add conn_drop wake schedule_sleep live_insert live_delete try_sleep_park
    try_sleep_exit call_exit end_session_take arm_session_locked
Step-Switches {s} (accept c r) v = ground arith
Step-Switches {s} (close c r p) v = ground arith
Step-Switches {s} (wakes c u p) v = ground arith
Step-Switches {s} (tries u e) v = ground arith
Step-Switches {s} (leaves u) v = ground arith
Step-Switches {s} (quits u) v = ground (arith, v.down)
Step-Switches {s} (schedules c u p) v = ground arith
Step-Switches {s} (ends u e) v = ground arith
Step-Switches {s} (rearms cs u p) v = ground arith
Step-Switches {s} st v = inl (refl, refl)
