-- ===== src/Idle/Rest/Kept.antt =====
-- A capped session stays capped, or has been taken by its `endSession`, until no connection is left.
use zdash.Prelude.{
  ℕ, ◌≤◌, ◌<◌, ◌≡◌, ◌≢◌, ◌⊎◌, inl, inr, refl, ◌∙◌, [], none, arith, Pick-length, count, count-Pick,
  count-append, Bool, Bool-cases, ◌==◌,
}
use zdash.Prelude.Int.{ℤ}
use zdash.Idle.{
  schedule_sleep, try_sleep_park, try_sleep_exit, call_exit, end_session_take, arm_session_locked,
  conn_drop, live_delete,
}
use zdash.Idle.System.{System, booted}
use zdash.Idle.Steps.{
  Step, accept, close, wakes, inserts, schedules, deletes, grace_fires, grace_orphan_fires, tries,
  leaves, quits, cap_fires, cap_orphan_fires, ends, rearms, Reach, later,
}
use zdash.Idle.Invariant.{Inv, Reachable-Inv}
use zdash.Idle.Closing.{taken, IsFresh, Tracked, Reach-Tracked}
use zdash.Idle.Rest.{IsOwn, Winds, start, more, IsFresh-own}

-- No `trySleep` is under way or armed.
pub record NoGrace (s : System) : Type 0 where
  pub scheduled : s.scheduling ≡ []
  pub unarmed : s.gate.timer ≡ none
  pub unfired : s.grace_fired ≡ 0
  pub unorphaned : s.grace_orphans ≡ 0

-- The cap is still to end the session, or it has taken all that is served.
abbrev pub Capped : {b s : System} → Reach b s → Type 0
Capped {s = s} q = (s.gate.sess ≢ none) ⊎ ((c : ℕ) → 0 < count c s.serving → 0 < count c (taken q))

pub record Kept {b s : System} (q : Reach b s) : Type 0 where
  pub settled : (s.waking ≡ []) × (s.inserting ≡ [])
  pub capped : (s.gate.conns ≡ 0) ⊎ (NoGrace s × Capped q)

module _ {b s : System} (q : Reach b s) (v : Inv s) (tracked : (c : ℕ) → Tracked q c)
    (k : Kept q) where
  -- A step that leaves alone what `Kept` reads.
  same_Kept :
      {t : System} (st : Step s t)
      → t.waking ≡ s.waking
      → t.inserting ≡ s.inserting
      → t.gate.conns ≡ s.gate.conns
      → (NoGrace s → NoGrace t)
      → ((c : ℕ) → count c t.serving ≡ count c s.serving)
      → ((c : ℕ) → count c (taken q) ≤ count c (taken (later q st)))
      → (NoGrace s → (s.gate.sess ≢ none) → Capped (later q st))
      → Kept (later q st)
  same_Kept st w i c g serves takes sess = record {
    settled = ground (arith, k.settled);
    capped = elim k.capped [
      | inl z ↦ inl (c ∙ z)
      | inr (quiet, inl armed) ↦ inr (g quiet, sess quiet armed)
      | inr (quiet, inr all) ↦
          inr (g quiet, inr (λ d h. omega (arith, all d, serves d, takes d, h)))
    ];
  }

  -- A step of a `trySleep`, or to one.
  grace_Kept :
      {t : System} (st : Step s t)
      → t.waking ≡ s.waking
      → t.inserting ≡ s.inserting
      → t.gate.conns ≡ s.gate.conns
      → (NoGrace s → ⊥)
      → Kept (later q st)
  grace_Kept st w i c never = record {
    settled = ground (arith, k.settled);
    capped = elim k.capped [ inl z ↦ inl (c ∙ z) | inr (quiet, held) ↦ absurd (never quiet) ];
  }

  Step-Kept : {t : System} (st : Step s t) → IsOwn q st → Kept (later q st)
  unfolding schedule_sleep try_sleep_park try_sleep_exit call_exit end_session_take
      arm_session_locked conn_drop live_delete
  Step-Kept (accept c u) own = absurd own
  Step-Kept (close c u p) own = record {
    settled = ground (arith, k.settled);
    capped = elim k.capped [
      | inl z ↦ absurd (ground (arith, v.counted, Pick-length p))
      | inr (quiet, held) ↦ elim (Bool-cases (s.gate.conns == 1)) [
        | inl one ↦ inl (ground arith)
        | inr more_left ↦ inr (
          ground (arith, quiet),
          elim held [
            | inl armed ↦ inl (ground arith)
            | inr all ↦ inr (λ d h. ground (arith, all d, count-Pick d p))
          ],
        )
      ]
    ];
  }
  Step-Kept (wakes c u p) own = absurd (ground (arith, k.settled, Pick-length p))
  Step-Kept (inserts c u p) own = absurd (ground (arith, k.settled, Pick-length p))
  Step-Kept (schedules c u p) own =
      grace_Kept (schedules c u p) refl refl (ground arith) (λ g. ground (arith, g, Pick-length p))
  Step-Kept (deletes c u p) own =
      same_Kept (deletes c u p) refl refl refl (λ g. ground arith) (λ c. refl) (λ c. omega arith)
        (λ g a. inl a)
  Step-Kept (grace_fires u e) own =
      grace_Kept (grace_fires u e) refl refl refl (λ g. ground (arith, g))
  Step-Kept (grace_orphan_fires u e) own =
      grace_Kept (grace_orphan_fires u e) refl refl refl (λ g. ground (arith, g))
  Step-Kept (tries u e) own =
      grace_Kept (tries u e) (ground arith) (ground arith) (ground arith) (λ g. ground (arith, g))
  Step-Kept (leaves u) own =
      same_Kept (leaves u) refl refl refl (λ g. ground arith) (λ c. refl) (λ c. omega arith)
        (λ g a. inl a)
  Step-Kept (quits u) own =
      same_Kept (quits u) refl refl refl (λ g. ground arith) (λ c. refl) (λ c. omega arith)
        (λ g a. inl a)
  Step-Kept (cap_fires u e) own =
      same_Kept (cap_fires u e) refl refl refl (λ g. ground arith) (λ c. refl) (λ c. omega arith)
        (λ g a. inl (λ e. cc))
  Step-Kept (cap_orphan_fires u e) own =
      same_Kept (cap_orphan_fires u e) refl refl refl (λ g. ground arith) (λ c. refl)
        (λ c. omega arith) (λ g a. inl a)
  Step-Kept (ends u e) own =
      same_Kept (ends u e) (ground arith) (ground arith) (ground arith) (λ g. ground (arith, g))
        (λ c. ground arith) (λ c. omega (arith, count-append c s.gate.live_conns (taken q)))
        (λ g a. inr (λ d h.
          ground (arith, count-append d s.gate.live_conns (taken q), (tracked d).reached, h)))
  Step-Kept (rearms cs u p) own =
      same_Kept (rearms cs u p) refl refl (ground arith) (λ g. ground arith) (λ c. refl)
        (λ c. omega arith) (λ g a. inl (ground arith))

pub Winds-Kept :
    (procs : ℕ) (gc : ℤ) (exits : Bool) {s : System} {r : Reach (booted procs gc exits) s} {n : ℕ}
    {t : System} {q : Reach (booted procs gc exits) t}
    → Winds r n t q
    → IsFresh r
    → Kept r
    → IsFresh q × Kept q
Winds-Kept procs gc exits start f k = (f, k)
Winds-Kept procs gc exits (more {q = q} w st own) f k =
    let (g, m) = Winds-Kept procs gc exits w f k in
    (
      IsFresh-own q st own g,
      Step-Kept q (Reachable-Inv (procs, gc, exits, q)) (λ c. Reach-Tracked procs gc exits q c g) m
          st own,
    )
