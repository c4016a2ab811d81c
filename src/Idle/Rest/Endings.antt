-- ===== src/Idle/Rest/Endings.antt =====
-- Where a capped session ends.
use zdash.Prelude.{
  ℕ, zero, suc, ◌≤◌, ◌<◌, ◌≡◌, ◌≢◌, ◌⊎◌, inl, inr, refl, true, List, [], ◌∷◌, Option, none, some,
  arith, head, count, Bool,
}
use zdash.Prelude.Int.{ℤ}
use zdash.Idle.{Timer, ticking, expired}
use zdash.Idle.System.{System, booted, Phase, unlocked, parked, leaving, exited}
use zdash.Idle.Steps.{
  Step, close, schedules, grace_fires, grace_orphan_fires, tries, leaves, quits, cap_fires, ends,
  Reach,
}
use zdash.Idle.Invariant.{Inv, Reachable-Inv}
use zdash.Idle.Closing.{taken, IsFresh}
use zdash.Idle.Rest.{IsOwn, Winds, weight, Winds-weight}
use zdash.Idle.Rest.Kept.{NoGrace, Kept, Winds-Kept}

-- Nothing is left to do: the process has exited, or it sleeps with no connection and no timer.
pub data AtRest (s : System) : Type 0 where
  gone : s.phase ≡ exited → AtRest s
  asleep :
      s.phase ≡ unlocked
      → s.gate.sleeping ≡ true
      → s.gate.conns ≡ 0
      → s.gate.timer ≡ none
      → s.gate.sess ≡ none
      → AtRest s

abbrev pub CanGoOn : {b s : System} → Reach b s → Type 0
CanGoOn {s = s} q = (t : System) × (st : Step s t) × IsOwn q st

module _ {b s : System} (q : Reach b s) where
  -- A queue is empty, or its first entry gives a step; so for a count.
  drained :
      (queue : List ℕ)
      → ((c : ℕ) (rest : List ℕ) → queue ≡ c ∷ rest → CanGoOn q)
      → CanGoOn q ⊎ (queue ≡ [])
  drained [] go = inr refl
  drained (c ∷ rest) go = inl (go c rest refl)

  counted_down : (count : ℕ) → ((n : ℕ) → count ≡ suc n → CanGoOn q) → CanGoOn q ⊎ (count ≡ 0)
  counted_down zero go = inr refl
  counted_down (suc n) go = inl (go n refl)

  on_timer :
      (t : Option Timer)
      → s.gate.timer ≡ t
      → s.phase ≡ unlocked
      → CanGoOn q ⊎ (s.gate.timer ≢ some ticking)
  on_timer (some ticking) e u = inl (_, grace_fires (rw u tt) e, tt)
  on_timer (some expired) e u = inr (λ h. cc)
  on_timer none e u = inr (λ h. cc)

  on_cap :
      (t : Option Timer)
      → s.gate.sess ≡ t
      → s.phase ≡ unlocked
      → Inv s
      → CanGoOn q ⊎ (s.gate.sess ≡ none)
  on_cap (some ticking) e u v = inl (_, cap_fires (rw u tt) e, tt)
  on_cap (some expired) e u v =
      ground (arith, v.cap_backed e, counted_down s.cap_fired (λ n f. (_, ends {n = n} u f, tt)))
  on_cap none e u v = inr e

  -- A served connection is closed by the `endSession` that took it.
  on_served :
      (served : List ℕ)
      → s.serving ≡ served
      → s.phase ≡ unlocked
      → ((c : ℕ) → 0 < count c s.serving → 0 < count c (taken q))
      → CanGoOn q ⊎ (s.serving ≡ [])
  on_served [] e u all = inr e
  on_served (c ∷ rest) e u all =
      inl (_, close c {rest = rest} (rw u tt) (rw e head), all c (rw e (ground arith)))

  on_unlocked : Inv s → Kept q → s.phase ≡ unlocked → CanGoOn q ⊎ AtRest s
  on_unlocked v k u = elim (on_cap s.gate.sess refl u v) [
    | inl go ↦ inl go
    | inr uncapped ↦ elim (unserved uncapped) [
      | inl go ↦ inl go
      | inr z ↦ ground (
        arith,
        z,
        uncapped,
        drained s.scheduling (λ c rest e. (_, schedules c {rest = rest} u (rw e head), tt)),
        counted_down s.grace_fired (λ n e. (_, tries {n = n} u e, tt)),
        counted_down s.grace_orphans (λ n e. (_, grace_orphan_fires {n = n} (rw u tt) e, tt)),
        on_timer s.gate.timer refl u,
        v,
      )
    ]
  ]
    where
      unserved : s.gate.sess ≡ none → CanGoOn q ⊎ (s.gate.conns ≡ 0)
      unserved uncapped = elim k.capped [
        | inl z ↦ inr z
        | inr (quiet, inl armed) ↦ absurd (armed uncapped)
        | inr (quiet, inr all) ↦ elim (on_served s.serving refl u all) [
          | inl go ↦ inl go
          | inr nobody ↦ inr (ground (arith, nobody, v.counted, k.settled))
        ]
      ]

  on_phase : (p : Phase) → s.phase ≡ p → Inv s → Kept q → CanGoOn q ⊎ AtRest s
  on_phase unlocked e v k = on_unlocked v k e
  on_phase parked e v k = inl (_, leaves e, tt)
  on_phase leaving e v k = inl (_, quits e, tt)
  on_phase exited e v k = inr (gone e)

-- The session cap brings the process to rest, with no help of its clients. Take a reachable state, in a
-- run in which each arrival is a connection of its own, where every hook of a new connection has
-- returned, a cap is armed and no `trySleep` is armed or under way. Then a run in which no
-- connection arrives, and none is closed but by an `endSession` that took it, has at most `weight s`
-- steps, whatever their order; and where it stands it can go on by such a step, or the process has
-- exited, or it sleeps with the lock free, no connection counted and no timer armed.
pub cap_brings_rest :
    (procs : ℕ) (gc : ℤ) (exits : Bool) {s t : System} {n : ℕ} (r : Reach (booted procs gc exits) s)
    {q : Reach (booted procs gc exits) t}
    → IsFresh r
    → s.waking ≡ []
    → s.inserting ≡ []
    → s.gate.sess ≢ none
    → NoGrace s
    → Winds r n t q
    → (n ≤ weight s) × (CanGoOn q ⊎ AtRest t)
cap_brings_rest procs gc exits {t = t} r {q = q} f a b armed quiet w =
    let k : Kept q =
      (Winds-Kept procs gc exits w f
        (record { settled = (a, b); capped = inr (quiet, inl armed) })).1 in
    (omega (arith, Winds-weight w), on_phase q t.phase refl (Reachable-Inv (procs, gc, exits, q)) k)
