-- ===== src/Idle/Invariant.antt =====
-- What holds of the gate and the goroutines around it in every reachable state.
use zdash.Prelude.{
  ℕ, ◌+◌, ◌<◌, [], ◌≡◌, Bool, true, false, Option, none, some, length, arith, Pick-length,
}
use zdash.Prelude.Int.{ℤ}
use zdash.Idle.{
  Timer, expired, new_idle_gate, exit_on_idle, enter_sleep, wake, schedule_sleep, try_sleep_park,
  try_sleep_exit, call_exit, end_session_take, arm_session_locked, conn_add, conn_drop, live_insert,
  live_delete,
}
use zdash.Idle.System.{System, Phase, unlocked, leaving, booted}
use zdash.Idle.Steps.{
  Step, accept, close, wakes, inserts, schedules, deletes, grace_fires, grace_orphan_fires, tries,
  leaves, quits, cap_fires, cap_orphan_fires, ends, rearms, Reach, here, later, Reachable,
}

-- A grace timer that `g.timer` names still leads to a call of `trySleep`.
abbrev pub pending : Option Timer → ℕ
pending none = 0
pending (some _) = 1

abbrev pub DownOnly : Phase → Bool → Type 0
DownOnly unlocked sleeping = Unit
DownOnly _ sleeping = sleeping ≡ true

pub record Inv (s : System) : Type 0 where
  -- the counter counts the connections from their acceptance to their close
  pub counted : s.gate.conns ≡ length s.waking + length s.inserting + length s.serving
  -- an expired timer's callback has not run yet
  pub backed : s.gate.timer ≡ some expired → 0 < s.grace_fired
  -- asleep with a connection, a `wake` is on its way
  pub wake_due : s.gate.sleeping ≡ true → 0 < s.gate.conns → 0 < length s.waking
  -- awake with no connection, a `trySleep` is on its way
  pub sleep_due :
      s.gate.sleeping ≡ false
      → s.gate.conns ≡ 0
      → 0 < length s.scheduling + pending s.gate.timer + s.grace_fired + s.grace_orphans
  -- asleep, no timer is armed
  pub quiet : s.gate.sleeping ≡ true → (s.gate.timer ≡ none) × (s.gate.sess ≡ none)
  -- the timer that `g.sess` names
  pub cap_backed : s.gate.sess ≡ some expired → 0 < s.cap_fired
  -- on the way to `exit`
  pub leaves_none : s.phase ≡ leaving → (s.serving ≡ []) × (s.gate.exit_on_idle ≡ true)
  pub down : DownOnly s.phase s.gate.sleeping

booted-Inv : (procs : ℕ) (gc : ℤ) (exits : Bool) → Inv (booted procs gc exits)
unfolding new_idle_gate exit_on_idle enter_sleep
booted-Inv procs gc true = ground arith
booted-Inv procs gc false = ground arith

pub Step-Inv : {s t : System} → Step s t → Inv s → Inv t
unfolding conn_add conn_drop wake schedule_sleep live_insert live_delete try_sleep_park
    try_sleep_exit call_exit end_session_take arm_session_locked
Step-Inv {s} (accept c r) v = ground arith
Step-Inv {s} (close c r p) v = ground (arith, Pick-length p)
Step-Inv {s} (wakes c u p) v = ground (arith, Pick-length p)
Step-Inv {s} (inserts c u p) v = ground (arith, Pick-length p)
Step-Inv {s} (schedules c u p) v = ground (arith, Pick-length p)
Step-Inv {s} (deletes c u p) v = ground arith
Step-Inv {s} (grace_fires r e) v = ground arith
Step-Inv {s} (grace_orphan_fires r e) v = ground arith
Step-Inv {s} (tries u e) v = ground arith
Step-Inv {s} (leaves u) v = ground arith
Step-Inv {s} (quits u) v = ground arith
Step-Inv {s} (cap_fires r e) v = ground arith
Step-Inv {s} (cap_orphan_fires r e) v = ground arith
Step-Inv {s} (ends u e) v = ground arith
Step-Inv {s} (rearms cs u p) v = ground arith

Reach-Inv : {s t : System} → Inv s → Reach s t → Inv t
Reach-Inv v here = v
Reach-Inv v (later r st) = Step-Inv st (Reach-Inv v r)

pub Reachable-Inv : {s : System} → Reachable s → Inv s
Reachable-Inv (procs, gc, exits, r) = Reach-Inv (booted-Inv procs gc exits) r
