-- ===== src/Idle/Cap.antt =====
-- The session cap: what `wake` promises, and the order of hooks and timers that loses it. The old
-- connection is dropped, a new one is accepted and runs `wake`, the old one's `scheduleSleep` comes
-- late, and `trySleep` disarms the cap before it sees the new connection.
use zdash.Prelude.{ℕ, suc, ◌≡◌, ◌≢◌, ◌⊎◌, refl, ◌∙◌, false, List, [], ◌∷◌, none, some, arith, head}
use zdash.Idle.{
  IdleGate, ticking, wake, schedule_sleep, try_sleep_park, arm_session_locked, conn_add, conn_drop,
  live_insert,
}
use zdash.Idle.System.{System, unlocked, park}
use zdash.Idle.Steps.{
  Step, accept, close, wakes, inserts, schedules, grace_fires, tries, Reach, Reach-trans, here,
  later,
}

-- On every branch `wake` leaves the gate awake, with no grace timer, and with a session cap: the one
-- that was armed before, neither renewed nor extended, or a new one. It leaves the counter alone.
pub wake_capped :
    (g : IdleGate)
    → ((wake g).sleeping ≡ false)
      × ((wake g).timer ≡ none)
      × ((wake g).sess ≢ none)
      × ((g.sess ≡ none) ⊎ ((wake g).sess ≡ g.sess))
      × ((wake g).conns ≡ g.conns)
unfolding wake arm_session_locked
wake_capped g = ground arith

-- One connection is served, awake, with no cap and no grace timer armed. Calls of `endSession` that
-- wait and cap timers that no field names are as they were in `s`.
pub record Uncapped (d : ℕ) (s t : System) : Type 0 where
  pub reached : Reach s t
  pub free : t.phase ≡ unlocked
  pub awake : t.gate.sleeping ≡ false
  pub one : t.gate.conns ≡ 1
  pub served : t.serving ≡ d ∷ []
  pub uncapped : t.gate.sess ≡ none
  pub unarmed : t.gate.timer ≡ none
  pub settled : (t.waking ≡ []) × (t.inserting ≡ [])
  pub cap_kept : (t.cap_fired ≡ s.cap_fired) × (t.cap_orphans ≡ s.cap_orphans)
  pub closing_kept : t.closing ≡ s.closing

module _ (d : ℕ) where
  abbrev LosesCap : System → Type 0
  LosesCap s = (t : System) × Uncapped d s t

  -- `d` is connected and awake; what is left to happen follows.
  record Connected (s : System) : Type 0 where
    free : s.phase ≡ unlocked
    awake : s.gate.sleeping ≡ false
    one : s.gate.conns ≡ 1
    served : s.serving ≡ d ∷ []
    settled : (s.waking ≡ []) × (s.inserting ≡ [])

  LosesCap-Step :
      {s t : System}
      → Step s t
      → t.cap_fired ≡ s.cap_fired
      → t.cap_orphans ≡ s.cap_orphans
      → t.closing ≡ s.closing
      → LosesCap t
      → LosesCap s
  LosesCap-Step st a b c (u, l) = (
    u,
    record {
      reached = Reach-trans (later here st) l.reached;
      free = l.free;
      awake = l.awake;
      one = l.one;
      served = l.served;
      uncapped = l.uncapped;
      unarmed = l.unarmed;
      settled = l.settled;
      cap_kept = ground arith;
      closing_kept = ground arith;
    },
  )

  lose_fired : (s : System) (n : ℕ) → Connected s → s.grace_fired ≡ suc n → LosesCap s
  unfolding try_sleep_park
  lose_fired s n k e = (
    park n s (try_sleep_park s.gate),
    record {
      reached = later here (tries k.free e);
      free = ground arith;
      awake = ground arith;
      one = ground arith;
      served = ground arith;
      uncapped = ground arith;
      unarmed = ground arith;
      settled = ground arith;
      cap_kept = ground arith;
      closing_kept = ground arith;
    },
  )

  lose_armed : (s : System) → Connected s → s.gate.timer ≡ some ticking → LosesCap s
  lose_armed s k e = LosesCap-Step (grace_fires (rw (k.free) tt) e) refl refl refl (
      lose_fired _ s.grace_fired
        (record {
          free = k.free;
          awake = k.awake;
          one = k.one;
          served = k.served;
          settled = k.settled;
        })
        refl)

  lose_scheduled :
      (s : System) (c : ℕ) (rest : List ℕ)
      → Connected s
      → s.gate.timer ≡ none
      → s.scheduling ≡ c ∷ rest
      → LosesCap s
  unfolding schedule_sleep
  lose_scheduled s c rest k e q =
      LosesCap-Step (schedules c {rest = rest} k.free (rw q head)) refl refl refl (
        lose_armed _
          (record {
            free = k.free;
            awake = ground arith;
            one = ground arith;
            served = k.served;
            settled = k.settled;
          })
          (ground arith))

  lose_inserting :
      (s : System) (c : ℕ) (rest : List ℕ)
      → s.phase ≡ unlocked
      → s.gate.sleeping ≡ false
      → s.gate.conns ≡ 1
      → s.inserting ≡ d ∷ []
      → s.serving ≡ []
      → s.waking ≡ []
      → s.gate.timer ≡ none
      → s.scheduling ≡ c ∷ rest
      → LosesCap s
  unfolding live_insert
  lose_inserting s c rest free awake one i v w e q =
      LosesCap-Step (inserts d {rest = []} free (rw i head)) refl refl refl (
        lose_scheduled _ c rest
          (record { free = free; awake = awake; one = one; served = rw v; settled = (w, refl) }) e
          q)

  lose_waking :
      (s : System) (c : ℕ) (rest : List ℕ)
      → s.phase ≡ unlocked
      → s.gate.sleeping ≡ false
      → s.gate.conns ≡ 1
      → s.waking ≡ d ∷ []
      → s.serving ≡ []
      → s.inserting ≡ []
      → s.scheduling ≡ c ∷ rest
      → LosesCap s
  lose_waking s c rest free awake one w v i q =
      let (up, unarmed, _, _, same) = wake_capped s.gate in
      LosesCap-Step (wakes d {rest = []} free (rw w head)) refl refl refl
        (lose_inserting _ c rest free up (same ∙ one) (rw i) v refl unarmed q)

-- The cap can be lost: from every state in which the gate is free and awake and serves one
-- connection, with no other counted and every hook of a new connection returned, there are steps to
-- a state in which a given new connection is the one that is served, awake, with no grace timer and
-- no session cap armed, and with no call of `endSession` and no other cap timer added.
pub cap_lost :
    (s : System) (c d : ℕ)
    → s.phase ≡ unlocked
    → s.gate.sleeping ≡ false
    → s.gate.conns ≡ 1
    → s.serving ≡ c ∷ []
    → s.waking ≡ []
    → s.inserting ≡ []
    → (t : System) × Uncapped d s t
unfolding conn_add conn_drop
cap_lost s c d free awake one v w i =
    LosesCap-Step d (close c {rest = []} (rw free tt) (rw v head)) (ground arith) (ground arith)
      (ground arith)
      (LosesCap-Step d (accept d (ground arith)) (ground arith) (ground arith) (ground arith) (
        lose_waking d _ c s.scheduling (ground arith) (ground arith) (ground arith) (ground arith)
          (ground arith) (ground arith) (ground arith)))
