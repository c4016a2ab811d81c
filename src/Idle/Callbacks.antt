-- ===== src/Idle/Callbacks.antt =====
-- The order in which the gate calls `wakeFn`, `sleepFn` and `exit`, and what the process looks like
-- after those calls.
use zdash.Prelude.{ℕ, Bool, true, false, List, [], ◌∷◌, arith}
use zdash.Prelude.Int.{ℤ}
use zdash.Idle.{
  Effect, wake_fn, sleep_fn, exit_fn, wake, schedule_sleep, try_sleep_park, try_sleep_exit,
  call_exit, end_session_take, arm_session_locked, conn_add, conn_drop, live_insert, live_delete,
  new_idle_gate, exit_on_idle, enter_sleep,
}
use zdash.Idle.System.{System, Phase, exited, booted}
use zdash.Idle.Steps.{Step, accept, wakes, tries, leaves, quits, Reach, here, later, Reachable}
use zdash.Idle.Invariant.{Inv, Reachable-Inv}

-- The calls so far, and whether the process is left asleep: parked at boot, then woken and parked
-- in turn.
pub data Alternates : List Effect → Bool → Type 0 where
  started : Alternates (sleep_fn ∷ []) true
  slept : (l : List Effect) → Alternates l false → Alternates (sleep_fn ∷ l) true
  woken : (l : List Effect) → Alternates l true → Alternates (wake_fn ∷ l) false

-- `exit` comes last, from a parked process.
pub data Ended : List Effect → Type 0 where
  ended : (l : List Effect) → Alternates l true → Ended (exit_fn ∷ l)

abbrev pub Orderly : Phase → List Effect → Bool → Type 0
Orderly exited l sleeping = Ended l
Orderly _ l sleeping = Alternates l sleeping

booted-Orderly :
    (procs : ℕ) (gc : ℤ) (exits : Bool)
    → let s = booted procs gc exits in Orderly s.phase s.gate.log s.gate.sleeping
unfolding new_idle_gate exit_on_idle enter_sleep
booted-Orderly procs gc true = started
booted-Orderly procs gc false = started

Step-Orderly :
    {s t : System}
    → Step s t
    → Inv s
    → Orderly s.phase s.gate.log s.gate.sleeping
    → Orderly t.phase t.gate.log t.gate.sleeping
unfolding conn_add conn_drop wake schedule_sleep live_insert live_delete try_sleep_park
    try_sleep_exit call_exit end_session_take arm_session_locked
Step-Orderly {s} (accept c r) v o = ground arith
Step-Orderly {s} (wakes c u p) v o = ground (arith, woken s.gate.log)
Step-Orderly {s} (tries u e) v o = ground (arith, slept s.gate.log)
Step-Orderly {s} (leaves u) v o = ground arith
Step-Orderly {s} (quits u) v o = ground (arith, ended s.gate.log)
Step-Orderly st v o = ground arith

Reach-Orderly :
    (procs : ℕ) (gc : ℤ) (exits : Bool) {s : System}
    → Reach (booted procs gc exits) s
    → Orderly s.phase s.gate.log s.gate.sleeping
Reach-Orderly procs gc exits here = booted-Orderly procs gc exits
Reach-Orderly procs gc exits (later r st) =
    Step-Orderly st (Reachable-Inv (procs, gc, exits, r)) (Reach-Orderly procs gc exits r)

-- In every reachable state the calls alternate: `sleepFn` first, then `wakeFn` and `sleepFn` in
-- turn, the last of them as the gate says; an exited process called `exit` last, and once.
pub callbacks_alternate : {s : System} → Reachable s → Orderly s.phase s.gate.log s.gate.sleeping
callbacks_alternate (procs, gc, exits, r) = Reach-Orderly procs gc exits r
