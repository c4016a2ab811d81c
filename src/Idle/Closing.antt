-- ===== src/Idle/Closing.antt =====
-- `endSession` reaches every served connection.
use zdash.Prelude.{
  ℕ, ◌+◌, ◌<◌, ◌≤◌, ◌≡◌, List, [], ◌∷◌, ◌++◌, ◌==◌, if◌then◌else◌, count, count-append, count-Pick,
  arith, Bool, true, false,
}
use zdash.Prelude.Int.{ℤ}
use zdash.Idle.{
  remove_conn, wake, schedule_sleep, try_sleep_park, try_sleep_exit, call_exit, end_session_take,
  arm_session_locked, conn_add, conn_drop, live_insert, live_delete, new_idle_gate, exit_on_idle,
  enter_sleep,
}
use zdash.Idle.System.{System, booted}
use zdash.Idle.Steps.{
  Step, accept, close, wakes, inserts, schedules, deletes, grace_fires, grace_orphan_fires, tries,
  leaves, quits, cap_fires, cap_orphan_fires, ends, rearms, Reach, here, later,
}

count-remove_conn :
    (c d : ℕ) (ds : List ℕ) → count c (remove_conn d ds) ≡ (if d == c then 0 else count c ds)
count-remove_conn c d [] = ground arith
count-remove_conn c d (e ∷ ds) = ground (arith, count-remove_conn c d ds)

-- The connections that arrived on the way, and those that an `endSession` took out to close.
abbrev pub arrived : {s t : System} → Reach s t → List ℕ
arrived here = []
arrived (later r (accept c u)) = c ∷ arrived r
arrived (later r _) = arrived r

abbrev pub taken : {s t : System} → Reach s t → List ℕ
taken here = []
taken (later {t = t} r (ends u e)) = (end_session_take t.gate).1 ++ taken r
taken (later r _) = taken r

-- Each arrival is a connection of its own.
abbrev pub IsFresh : {s t : System} → Reach s t → Type 0
IsFresh here = Unit
IsFresh (later r (accept c u)) = (count c (arrived r) ≡ 0) × IsFresh r
IsFresh (later r _) = IsFresh r

-- A connection that some hook or its handler still holds.
abbrev pub held : System → ℕ → ℕ
held s c =
    count c s.waking
    + count c s.inserting
    + count c s.serving
    + count c s.scheduling
    + count c s.deleting

pub record Tracked {s : System} {t : System} (r : Reach s t) (c : ℕ) : Type 0 where
  pub once : count c (arrived r) ≤ 1
  pub known : held t c ≤ count c (arrived r)
  pub reached : 0 < count c t.serving → 0 < count c t.gate.live_conns + count c (taken r)

Tracked-later :
    {s t u : System} (r : Reach s t) (st : Step t u) (c : ℕ)
    → IsFresh (later r st)
    → Tracked r c
    → Tracked (later r st) c
unfolding conn_add conn_drop wake schedule_sleep live_insert live_delete try_sleep_park
    try_sleep_exit call_exit end_session_take arm_session_locked
Tracked-later r (accept d u) c h v = ground (arith, v)
Tracked-later r (close d u p) c h v = ground (arith, v, count-Pick c p)
Tracked-later r (wakes d u p) c h v = ground (arith, v, count-Pick c p)
Tracked-later {t = t} r (inserts d u p) c h v =
    ground (arith, v, count-Pick c p, count-remove_conn c d t.gate.live_conns)
Tracked-later r (schedules d u p) c h v = ground (arith, v, count-Pick c p)
Tracked-later {t = t} r (deletes d u p) c h v =
    ground (arith, v, count-Pick c p, count-remove_conn c d t.gate.live_conns)
Tracked-later r (grace_fires u e) c h v = ground (arith, v)
Tracked-later r (grace_orphan_fires u e) c h v = ground (arith, v)
Tracked-later r (tries u e) c h v = ground (arith, v)
Tracked-later r (leaves u) c h v = ground (arith, v)
Tracked-later r (quits u) c h v = ground (arith, v)
Tracked-later r (cap_fires u e) c h v = ground (arith, v)
Tracked-later r (cap_orphan_fires u e) c h v = ground (arith, v)
Tracked-later {t = t} r (ends u e) c h v =
    ground (arith, v, count-append c t.gate.live_conns (taken r))
Tracked-later r (rearms cs u p) c h v = ground (arith, v)

IsFresh-before : {s t u : System} (r : Reach s t) (st : Step t u) → IsFresh (later r st) → IsFresh r
IsFresh-before r (accept c u) h = h.1
IsFresh-before r st h = h

pub Reach-Tracked :
    (procs : ℕ) (gc : ℤ) (exits : Bool) {t : System} (r : Reach (booted procs gc exits) t) (c : ℕ)
    → IsFresh r
    → Tracked r c
unfolding new_idle_gate exit_on_idle enter_sleep
Reach-Tracked procs gc true here c h = ground arith
Reach-Tracked procs gc false here c h = ground arith
Reach-Tracked procs gc exits (later r st) c h =
    Tracked-later r st c h (Reach-Tracked procs gc exits r c (IsFresh-before r st h))

-- Whenever `endSession` takes its list, in a run from the start in which each arrival is a connection
-- of its own, every served connection is in that list, or in the list of an `endSession` before it:
-- none is left out of the cap.
pub end_session_reaches_all :
    (procs : ℕ) (gc : ℤ) (exits : Bool) {t : System} (r : Reach (booted procs gc exits) t) (c : ℕ)
    → IsFresh r
    → 0 < count c t.serving
    → 0 < count c (end_session_take t.gate).1 + count c (taken r)
unfolding end_session_take
end_session_reaches_all procs gc exits r c h served =
    (Reach-Tracked procs gc exits r c h).reached served
