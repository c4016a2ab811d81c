-- ===== src/Idle/Safety.antt =====
-- What the invariant means for the program: no lost wake-up, no exit under a live connection, and
-- always a way into deep sleep.
use zdash.Prelude.{
  ℕ, suc, zero, ◌+◌, length, ◌<◌, ◌≡◌, ◌≢◌, refl, true, Bool-cases, false, List, [], ◌∷◌, Option,
  none, some, arith, inl, inr, head,
}
use zdash.Idle.{
  Timer, ticking, expired, schedule_sleep, try_sleep_park, try_sleep_exit, call_exit,
  end_session_take, conn_add, conn_drop,
}
use zdash.Idle.System.{System, Phase, unlocked, parked, leaving, exited, park}
use zdash.Idle.Steps.{
  Step, accept, close, schedules, grace_fires, grace_orphan_fires, tries, leaves, quits, ends,
  Reach, Reach-trans, here, later, Reachable,
}
use zdash.Idle.Invariant.{Inv, Step-Inv, Reachable-Inv}

-- In every reachable state in which no hook still waits for `wake`, a process with a counted
-- connection is awake, with no regard to the order of hooks and timers.
pub connected_awake :
    {s : System} → Reachable s → s.waking ≡ [] → 0 < s.gate.conns → s.gate.sleeping ≡ false
connected_awake r w c = ground (arith, Reachable-Inv r)

-- The step that ends the process is the call of `exit` in `trySleep`, behind its last test of the
-- counter, under exit-on-idle and asleep. At that moment no connection is served: every counted
-- connection is still in its hook for `StateNew`.
pub exit_unserved :
    {s t : System}
    → Reachable s
    → Step s t
    → s.phase ≢ exited
    → t.phase ≡ exited
    → (s.phase ≡ leaving)
      × (s.gate.exit_on_idle ≡ true)
      × (s.gate.sleeping ≡ true)
      × (s.serving ≡ [])
      × (s.gate.conns ≡ length s.waking + length s.inserting)
unfolding try_sleep_park try_sleep_exit end_session_take conn_add conn_drop
exit_unserved r (quits u) n e = ground (arith, Reachable-Inv r)
exit_unserved r (leaves u) n e = ground arith
exit_unserved r (accept c h) n e = ground arith
exit_unserved r (close c h p) n e = ground arith
exit_unserved r (tries u f) n e = ground arith
exit_unserved r (ends u f) n e = ground arith
exit_unserved r st n e = absurd (n e)

-- A connection is lost at the exit: wherever `trySleep` parks with exit-on-idle, no connection
-- counted, and tests the counter, a connection may be accepted and counted behind that test, and
-- the process exits with it.
pub exit_race :
    (s : System) (c : ℕ)
    → s.phase ≡ parked
    → s.gate.exit_on_idle ≡ true
    → s.gate.conns ≡ 0
    → (t : System) × Reach s t × (t.phase ≡ exited) × (t.gate.conns ≡ 1) × (t.waking ≡ c ∷ s.waking)
unfolding try_sleep_exit call_exit conn_add
exit_race s c p on none_counted = (
  _,
  later (later (later here (leaves p)) (accept c (ground arith))) (quits (ground arith)),
  ground arith,
  ground arith,
  ground arith,
)

-- The next `trySleep` parks: what is needed of a state for that.
record Due (s : System) : Type 0 where
  awake : s.gate.sleeping ≡ false
  alone : s.gate.conns ≡ 0
  free : s.phase ≡ unlocked

-- Some state further on is asleep, still with no connection.
abbrev pub CanPark : System → Type 0
CanPark s = (t : System) × Reach s t × (t.gate.sleeping ≡ true) × (t.gate.conns ≡ 0)

CanPark-Step : {s t : System} → Step s t → CanPark t → CanPark s
CanPark-Step st (u, r, e, z) = (u, Reach-trans (later here st) r, e, z)

park_fired : (s : System) (n : ℕ) → Due s → s.grace_fired ≡ suc n → CanPark s
unfolding try_sleep_park
park_fired s n d e =
    (park n s (try_sleep_park s.gate), later here (tries d.free e), ground arith, ground arith)

park_timer : (s : System) (t : Timer) → Due s → Inv s → s.gate.timer ≡ some t → CanPark s
park_timer s ticking d v e =
    CanPark-Step (grace_fires (rw (d.free) tt) e)
      (park_fired _ s.grace_fired (record { awake = d.awake; alone = d.alone; free = d.free }) refl)
park_timer s expired d v e = let (n, f) = pred_of s.grace_fired (v.backed e) in park_fired s n d f
  where
    pred_of : (n : ℕ) → 0 < n → (m : ℕ) × (n ≡ suc m)
    pred_of zero h = absurd (omega arith)
    pred_of (suc m) h = (m, refl)

park_scheduled :
    (s : System) (c : ℕ) (rest : List ℕ)
    → Due s
    → Inv s
    → s.scheduling ≡ c ∷ rest
    → s.gate.timer ≡ none
    → CanPark s
unfolding schedule_sleep
park_scheduled s c rest d v e none_armed =
    CanPark-Step (schedules c {rest = rest} d.free (rw e head)) (
      park_timer _ ticking (record { awake = ground arith; alone = ground arith; free = d.free })
        (Step-Inv (schedules c {rest = rest} d.free (rw e head)) v) (ground arith))

park-Due :
    (s : System) (timer : Option Timer) (fired orphans : ℕ) (scheduling : List ℕ)
    → Due s
    → Inv s
    → s.gate.timer ≡ timer
    → s.grace_fired ≡ fired
    → s.grace_orphans ≡ orphans
    → s.scheduling ≡ scheduling
    → CanPark s
park-Due s (some t) fired orphans scheduling d v et ef eo es = park_timer s t d v et
park-Due s none (suc n) orphans scheduling d v et ef eo es = park_fired s n d ef
park-Due s none zero (suc n) scheduling d v et ef eo es =
    CanPark-Step (grace_orphan_fires (rw (d.free) tt) eo)
      (park_fired _ s.grace_fired (record { awake = d.awake; alone = d.alone; free = d.free }) refl)
park-Due s none zero zero (c ∷ rest) d v et ef eo es = park_scheduled s c rest d v es et
park-Due s none zero zero [] d v et ef eo es =
    absurd (ground (arith, d.awake, d.alone, v.sleep_due))

park_free :
    (s : System) (p : Phase) → Inv s → s.phase ≡ p → p ≢ exited → s.gate.conns ≡ 0 → CanPark s
park_free s p v e n z = elim (Bool-cases s.gate.sleeping) [
  | inl asleep ↦ (s, here, asleep, z)
  | inr awake ↦
      park-Due s s.gate.timer s.grace_fired s.grace_orphans s.scheduling
        (record { awake = awake; alone = z; free = ground (arith, v.down) }) v refl refl refl refl
]

-- From every reachable state of a running process with no counted connection there is a
-- continuation into deep sleep that counts no connection: no order of hooks and timers leaves the
-- process awake with no way to park.
idle_parks : {s : System} → Reachable s → s.phase ≢ exited → s.gate.conns ≡ 0 → CanPark s
idle_parks {s} r n z = park_free s s.phase (Reachable-Inv r) refl n z
