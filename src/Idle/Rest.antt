-- ===== src/Idle/Rest.antt =====
-- The session cap brings the process to rest: with no help of a client every run of the gate's
-- system ends, and it ends asleep.
pub mod Kept
pub mod Endings
use zdash.Prelude.{
  ℕ, zero, suc, ◌+◌, ◌*◌, ◌≤◌, ◌<◌, ◌≡◌, ◌≢◌, ◌⊎◌, inl, inr, refl, ◌∙◌, true, List, [], ◌∷◌, Option,
  none, some, length, arith, Pick, Pick-length, head, count, count-Pick, count-append, Bool,
  Bool-cases, ◌==◌,
}
use zdash.Prelude.Int.{ℤ}
use zdash.Idle.{
  Timer, ticking, expired, remove_conn, wake, schedule_sleep, try_sleep_park, try_sleep_exit,
  call_exit, end_session_take, arm_session_locked, conn_add, conn_drop, live_insert, live_delete,
}
use zdash.Idle.System.{System, booted, Phase, unlocked, parked, leaving, exited}
use zdash.Idle.Steps.{
  Step, accept, close, wakes, inserts, schedules, deletes, grace_fires, grace_orphan_fires, tries,
  leaves, quits, cap_fires, cap_orphan_fires, ends, rearms, Reach, here, later, Reachable,
}
use zdash.Idle.Invariant.{Inv, Reachable-Inv}
use zdash.Idle.Closing.{taken, IsFresh, Tracked, Reach-Tracked}

-- What the program does by itself: no arrival of a connection, and the close only of a connection that
-- an `endSession` has taken to close it.
abbrev pub IsOwn : {b s t : System} → Reach b s → Step s t → Type 0
IsOwn r (accept c u) = ⊥
IsOwn r (close c u p) = 0 < count c (taken r)
IsOwn r _ = Unit

-- A run, continued by this number of own steps.
pub data Winds {b s : System} (r : Reach b s) : ℕ → (t : System) → Reach b t → Type 0 where
  start : Winds r 0 s r
  more :
      {n : ℕ} {t u : System} {q : Reach b t}
      → Winds r n t q
      → (st : Step t u) → IsOwn q st
      → Winds r (suc n) u (later q st)

abbrev grace_weight : Option Timer → ℕ
grace_weight (some ticking) = 4
grace_weight _ = 0

abbrev cap_weight : Option Timer → ℕ
cap_weight (some ticking) = 2
cap_weight _ = 0

abbrev phase_weight : Phase → ℕ
phase_weight parked = 2
phase_weight leaving = 1
phase_weight _ = 0

-- What is left to do: the steps that each hook, timer and callback may still come to.
pub weight : System → ℕ
weight s =
    14 * length s.waking
    + 11 * length s.inserting
    + 7 * length s.serving
    + 6 * length s.scheduling
    + length s.deleting
    + grace_weight s.gate.timer
    + 3 * s.grace_fired
    + 4 * s.grace_orphans
    + cap_weight s.gate.sess
    + s.cap_fired
    + 2 * s.cap_orphans
    + 3 * length s.closing
    + 3 * length s.gate.live_conns
    + phase_weight s.phase

length-remove_conn : (c : ℕ) (ds : List ℕ) → length (remove_conn c ds) ≤ length ds
length-remove_conn c [] = omega arith
length-remove_conn c (d ∷ ds) = ground (arith, length-remove_conn c ds)

Step-weight : {b s t : System} (r : Reach b s) (st : Step s t) → IsOwn r st → weight t < weight s
unfolding weight conn_add conn_drop wake schedule_sleep live_insert live_delete try_sleep_park
    try_sleep_exit call_exit end_session_take arm_session_locked
Step-weight {s = s} q (accept c r) own = absurd own
Step-weight {s = s} q (close c r p) own = ground (arith, Pick-length p)
Step-weight {s = s} q (wakes c u p) own = ground (arith, Pick-length p)
Step-weight {s = s} q (inserts c u p) own =
    ground (arith, Pick-length p, length-remove_conn c s.gate.live_conns)
Step-weight {s = s} q (schedules c u p) own = ground (arith, Pick-length p)
Step-weight {s = s} q (deletes c u p) own =
    ground (arith, Pick-length p, length-remove_conn c s.gate.live_conns)
Step-weight {s = s} q (grace_fires r e) own = ground arith
Step-weight {s = s} q (grace_orphan_fires r e) own = ground arith
Step-weight {s = s} q (tries u e) own = ground arith
Step-weight {s = s} q (leaves u) own = ground arith
Step-weight {s = s} q (quits u) own = ground arith
Step-weight {s = s} q (cap_fires r e) own = ground arith
Step-weight {s = s} q (cap_orphan_fires r e) own = ground arith
Step-weight {s = s} q (ends u e) own = ground arith
Step-weight {s = s} q (rearms cs u p) own = ground (arith, Pick-length p)

pub Winds-weight :
    {b s : System} {r : Reach b s} {n : ℕ} {t : System} {q : Reach b t}
    → Winds r n t q
    → n + weight t ≤ weight s
Winds-weight start = omega arith
Winds-weight (more {q = q} w st own) = omega (arith, Winds-weight w, Step-weight q st own)

pub IsFresh-own :
    {b s t : System} (q : Reach b s) (st : Step s t) → IsOwn q st → IsFresh q → IsFresh (later q st)
IsFresh-own q (accept c u) own h = absurd own
IsFresh-own q st own h = h
