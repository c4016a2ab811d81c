-- ===== src/Idle/System.antt =====
-- The gate with the goroutines and timers around it: every critical section, every atomic update
-- of the counter and every timer that fires is one step, in any order.
use zdash.Prelude.{ℕ, ◌+◌, Bool, true, false, List, [], ◌∷◌, Option, some, if◌then◌else◌}
use zdash.Prelude.Int.{ℤ}
use zdash.Idle.{IdleGate, Timer, ticking, new_idle_gate, exit_on_idle, enter_sleep}

-- `g.mu` is free; is held by a `trySleep` that has called `sleepFn`; or by one that has also read the
-- counter and goes on to `exit`; or the process is gone.
pub data Phase : Type 0 where
  unlocked parked leaving exited : Phase

pub record System : Type 0 where
  pub gate : IdleGate
  pub phase : Phase
  pub waking : List ℕ  -- counted first, before `wake`
  pub inserting : List ℕ  -- counted, before the insertion into `liveConns`
  pub serving : List ℕ  -- the hook for `StateNew` has returned
  pub scheduling : List ℕ  -- dropped last, before `scheduleSleep`
  pub deleting : List ℕ  -- dropped, before the deletion from `liveConns`
  pub grace_fired : ℕ  -- calls of `trySleep` that wait for `g.mu`
  pub grace_orphans : ℕ  -- ticking grace timers that `g.timer` does not name
  pub cap_fired : ℕ  -- calls of `endSession` that wait for `g.mu`
  pub cap_orphans : ℕ  -- ticking cap timers that `g.sess` does not name
  pub closing : List (List ℕ)  -- calls of `endSession` that close these connections

-- What a reference to a ticking timer leaves behind when it is dropped without `Stop`.
abbrev pub orphaned : Option Timer → ℕ
orphaned (some ticking) = 1
orphaned _ = 0

-- `ExitOnIdle` (if asked for) and `BootSleep`, before the server accepts.
abbrev pub booted_gate : ℕ → ℤ → Bool → IdleGate
booted_gate procs gc exits =
    let g = new_idle_gate procs gc in enter_sleep (if exits then exit_on_idle g else g)

abbrev pub booted : ℕ → ℤ → Bool → System
booted procs gc exits = record {
  gate = booted_gate procs gc exits;
  phase = unlocked;
  waking = [];
  inserting = [];
  serving = [];
  scheduling = [];
  deleting = [];
  grace_fired = 0;
  grace_orphans = 0;
  cap_fired = 0;
  cap_orphans = 0;
  closing = [];
}

-- where a hook goes on behind its atomic update of the counter
abbrev pub count_new : ℕ → System → IdleGate × Bool → System
count_new c s (g, true) = record s { gate = g; waking = c ∷ s.waking }
count_new c s (g, false) = record s { gate = g; inserting = c ∷ s.inserting }

abbrev pub count_closed : ℕ → System → List ℕ → IdleGate × Bool → System
count_closed c s rest (g, true) = record s {
  gate = g;
  serving = rest;
  scheduling = c ∷ s.scheduling;
}
count_closed c s rest (g, false) = record s { gate = g; serving = rest; deleting = c ∷ s.deleting }

abbrev pub park : ℕ → System → IdleGate × Bool → System
park fired s (g, on) = record s {
  gate = g;
  phase = if on then parked else unlocked;
  grace_fired = fired;
  grace_orphans = s.grace_orphans + orphaned s.gate.timer;
}

abbrev pub leave : System → Bool → System
leave s goes = record s { phase = if goes then leaving else unlocked }

abbrev pub take : ℕ → System → IdleGate × List ℕ → System
take fired s (g, []) = record s {
  gate = g;
  cap_fired = fired;
  cap_orphans = s.cap_orphans + orphaned s.gate.sess;
}
take fired s (g, c ∷ cs) = record s {
  gate = g;
  cap_fired = fired;
  cap_orphans = s.cap_orphans + orphaned s.gate.sess;
  closing = (c ∷ cs) ∷ s.closing;
}

abbrev pub Runs : Phase → Type 0
Runs exited = ⊥
Runs _ = Unit
