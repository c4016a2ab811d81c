-- ===== src/Whole/Linked.antt =====
-- The refresher follows the gate, and is untouched until the gate first wakes.
use zdash.Prelude.{
  ℕ, ◌<◌, ◌≡◌, ◌⊎◌, inl, inr, ◌∙◌, Bool, true, false, not, [], none, length, arith, Pick-length,
}
use zdash.Prelude.Int.{ℤ}
use zdash.Idle.{
  wake_fn, sleep_fn, wake, schedule_sleep, try_sleep_park, try_sleep_exit, call_exit,
  end_session_take, arm_session_locked, conn_add, conn_drop, live_insert, live_delete,
}
use zdash.Idle.System.{System as IdleSystem}
use zdash.Idle.Steps.{Step as IdleStep, accept, close, wakes, tries, leaves, quits, ends}
use zdash.Idle.Calls.{Step-Switches}
use zdash.Idle.Invariant as IdleInvariant
use zdash.Refresh.{set_active, get, store, fetch_done, default_producers}
use zdash.Refresh.System.{System as CacheSystem}
use zdash.Refresh.Invariant as CacheInvariant
use zdash.Whole.{
  Whole, follow, booted_whole, Step, switches, requests, polls, stores, finishes, elapses, Reach,
  here, later, Reachable,
}
use zdash.Whole.Links.{Follows, Switches-Follows, Parts, Step-Parts, booted-Parts}

-- A `wake` that is due stays due until the gate wakes.
Step-waking :
    {s t : IdleSystem}
    → IdleStep s t
    → s.gate.sleeping ≡ true
    → t.gate.sleeping ≡ true
    → 0 < length s.waking
    → 0 < length t.waking
unfolding conn_add conn_drop wake schedule_sleep live_insert live_delete try_sleep_park
    try_sleep_exit call_exit end_session_take arm_session_locked
Step-waking {s} (accept c r) a b h = ground arith
Step-waking {s} (close c r p) a b h = ground arith
Step-waking {s} (wakes c u p) a b h = ground arith
Step-waking {s} (tries u e) a b h = ground arith
Step-waking {s} (leaves u) a b h = ground arith
Step-waking {s} (quits u) a b h = ground arith
Step-waking {s} (ends u e) a b h = ground arith
Step-waking {s} st a b h = h

-- No session yet: a `wake` is due, or no connection is counted and the refresher has done nothing.
abbrev pub Untouched : IdleSystem → CacheSystem → Type 0
Untouched s c =
    (0 < length s.waking) ⊎ ((s.gate.conns ≡ 0) × (c.cache.entries ≡ []) × (c.fetching ≡ []))

pub record Linked (w : Whole) : Type 0 where
  pub follows : w.caching.cache.active ≡ not w.idle.gate.sleeping
  pub known : w.caching.cache.producers ≡ default_producers
  pub unstarted :
      w.caching.cache.stop ≡ none
      → (w.caching.loops ≡ 0) × (w.caching.stopped ≡ 0) × Untouched w.idle w.caching

booted-Linked : (procs : ℕ) (gc : ℤ) (exits : Bool) → Linked (booted_whole procs gc exits)
unfolding set_active zdash.Idle.new_idle_gate zdash.Idle.exit_on_idle zdash.Idle.enter_sleep
booted-Linked procs gc true = ground arith
booted-Linked procs gc false = ground arith

Untouched-Step :
    {s t : IdleSystem} (c : CacheSystem)
    → IdleStep s t
    → IdleInvariant.Inv t
    → s.gate.sleeping ≡ true
    → t.gate.sleeping ≡ true
    → Untouched s c
    → Untouched t c
Untouched-Step {s} {t} c st v a b (inl due) = inl (Step-waking st a b due)
Untouched-Step {s} {t} c st v a b (inr (e, f, g)) = ground (arith, v)

Follows-Linked :
    {w : Whole} {t : IdleSystem} (c : CacheSystem)
    → IdleStep w.idle t
    → IdleInvariant.Inv t
    → CacheInvariant.Inv w.caching
    → Linked w
    → Follows w.idle.gate.sleeping w.caching t.gate.sleeping c
    → Linked (record { idle = t; caching = c })
unfolding set_active
Follows-Linked {w} {t} c st v i l (inl (e, f)) = rw e (record {
  follows = ground (arith, l);
  known = l.known;
  unstarted = λ n.
      let b : w.idle.gate.sleeping ≡ true = ground (arith, l, i) in
      ground (arith, l.unstarted n, Untouched-Step w.caching st v b (f ∙ b));
})
Follows-Linked {w} {t} c st v i l (inr (inl (e, f, g))) = rw e (ground (arith, l, i))
Follows-Linked {w} {t} c st v i l (inr (inr (e, f, g))) = rw e (ground (arith, l, i))

Step-Linked : {w u : Whole} → Step w u → Parts w → Parts u → Linked w → Linked u
unfolding set_active get store fetch_done
Step-Linked {w} (switches {t = t} st) p q l =
    Follows-Linked (follow w.idle.gate.log t.gate.log w.caching) st
      (IdleInvariant.Reachable-Inv q.gate) (CacheInvariant.Reachable-Inv p.cache) l
      (Switches-Follows w.idle.gate.log t.gate.log w.idle.gate.sleeping t.gate.sleeping w.caching
        (Step-Switches st (IdleInvariant.Reachable-Inv p.gate)))
Step-Linked {w} (requests method path key u n e) p q l =
    ground (arith, l, IdleInvariant.Reachable-Inv p.gate)
Step-Linked {w} (polls key u n) p q l = ground (arith, l)
Step-Linked {w} (stores f body status u pick) p q l = ground (arith, l, Pick-length pick)
Step-Linked {w} (finishes f u pick) p q l = ground (arith, l)
Step-Linked {w} (elapses n) p q l = ground (arith, l)

Reach-both :
    (procs : ℕ) (gc : ℤ) (exits : Bool) {w : Whole}
    → Reach (booted_whole procs gc exits) w
    → Parts w × Linked w
Reach-both procs gc exits here = (booted-Parts procs gc exits, booted-Linked procs gc exits)
Reach-both procs gc exits (later r st) =
    let (p, l) = Reach-both procs gc exits r in let q = Step-Parts st p in (q, Step-Linked st p q l)

pub Reachable-Parts : {w : Whole} → Reachable w → Parts w
Reachable-Parts (procs, gc, exits, r) = (Reach-both procs gc exits r).0

pub Reachable-Linked : {w : Whole} → Reachable w → Linked w
Reachable-Linked (procs, gc, exits, r) = (Reach-both procs gc exits r).1
