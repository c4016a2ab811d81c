-- ===== src/Idle/Steps.antt =====
-- The steps of the idle gate's system, and the states that they reach.
use zdash.Prelude.{ℕ, suc, ◌≡◌, Bool, List, ◌∷◌, some, Pick}
use zdash.Prelude.Int.{ℤ}
use zdash.Idle.{
  ticking, expired, wake, schedule_sleep, try_sleep_park, try_sleep_exit, call_exit,
  end_session_take, arm_session_locked, conn_add, conn_drop, live_insert, live_delete,
}
use zdash.Idle.System.{
  System, unlocked, parked, leaving, exited, booted, count_new, count_closed, park, leave, take,
  Runs,
}

pub data Step (s : System) : System → Type 0 where
  -- the counter, which the hooks update with no lock
  accept : (c : ℕ) → Runs s.phase → Step s (count_new c s (conn_add s.gate))
  close :
      (c : ℕ) {rest : List ℕ}
      → Runs s.phase
      → Pick c s.serving rest
      → Step s (count_closed c s rest (conn_drop s.gate))
  -- the critical sections of the hooks
  wakes :
      (c : ℕ) {rest : List ℕ}
      → s.phase ≡ unlocked
      → Pick c s.waking rest
      → Step s (record s { gate = wake s.gate; waking = rest; inserting = c ∷ s.inserting })
  inserts :
      (c : ℕ) {rest : List ℕ}
      → s.phase ≡ unlocked
      → Pick c s.inserting rest
      → Step s (record s { gate = live_insert c s.gate; inserting = rest; serving = c ∷ s.serving })
  schedules :
      (c : ℕ) {rest : List ℕ}
      → s.phase ≡ unlocked
      → Pick c s.scheduling rest
      → Step s
          (record s { gate = schedule_sleep s.gate; scheduling = rest; deleting = c ∷ s.deleting })
  deletes :
      (c : ℕ) {rest : List ℕ}
      → s.phase ≡ unlocked
      → Pick c s.deleting rest
      → Step s (record s { gate = live_delete c s.gate; deleting = rest })
  -- the timers, and their callbacks
  grace_fires :
      Runs s.phase
      → s.gate.timer ≡ some ticking
      → Step s (record s {
        gate = record (s.gate) { timer = some expired };
        grace_fired = suc s.grace_fired;
      })
  grace_orphan_fires :
      {n : ℕ}
      → Runs s.phase
      → s.grace_orphans ≡ suc n
      → Step s (record s { grace_orphans = n; grace_fired = suc s.grace_fired })
  tries :
      {n : ℕ}
      → s.phase ≡ unlocked
      → s.grace_fired ≡ suc n
      → Step s (park n s (try_sleep_park s.gate))
  leaves : s.phase ≡ parked → Step s (leave s (try_sleep_exit s.gate))
  quits : s.phase ≡ leaving → Step s (record s { gate = call_exit s.gate; phase = exited })
  cap_fires :
      Runs s.phase
      → s.gate.sess ≡ some ticking
      → Step s
          (record s { gate = record (s.gate) { sess = some expired }; cap_fired = suc s.cap_fired })
  cap_orphan_fires :
      {n : ℕ}
      → Runs s.phase
      → s.cap_orphans ≡ suc n
      → Step s (record s { cap_orphans = n; cap_fired = suc s.cap_fired })
  ends :
      {n : ℕ}
      → s.phase ≡ unlocked
      → s.cap_fired ≡ suc n
      → Step s (take n s (end_session_take s.gate))
  rearms :
      (cs : List ℕ) {rest : List (List ℕ)}
      → s.phase ≡ unlocked
      → Pick cs s.closing rest
      → Step s (record s { gate = arm_session_locked s.gate; closing = rest })

pub data Reach (s : System) : System → Type 0 where
  here : Reach s s
  later : {t u : System} → Reach s t → Step t u → Reach s u

pub Reach-trans : {s t u : System} → Reach s t → Reach t u → Reach s u
Reach-trans r here = r
Reach-trans r (later q st) = later (Reach-trans r q) st

-- All that the program may reach from its start.
abbrev pub Reachable : System → Type 0
Reachable s = (procs : ℕ) × (gc : ℤ) × (exits : Bool) × Reach (booted procs gc exits) s
