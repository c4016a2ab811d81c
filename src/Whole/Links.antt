-- ===== src/Whole/Links.antt =====
-- How the gate, the refresher and the requests go together in every reachable state.
use zdash.Prelude.{
  ℕ, ◌≡◌, ◌⊎◌, inl, inr, refl, ap, sym, ◌∙◌, Bool, true, false, List, [], ◌∷◌, arith,
}
use zdash.Prelude.Int.{ℤ}
use zdash.Idle.{Effect, wake_fn, sleep_fn, exit_fn}
use zdash.Idle.System.{System as IdleSystem}
use zdash.Idle.Steps as IdleSteps
use zdash.Idle.Calls.{Switches, Step-Switches}
use zdash.Idle.Invariant as IdleInvariant
use zdash.Refresh.System.{System as CacheSystem}
use zdash.Refresh.System as Cache
use zdash.Whole.{
  Whole, call_back, follow, booted_whole, Step, switches, requests, polls, stores, finishes,
  elapses,
}

follow_same : (l : List Effect) (c : CacheSystem) → follow l l c ≡ c
follow_same [] c = refl
follow_same (e ∷ l) c = ground arith

follow_called :
    (l : List Effect) (e : Effect) (c : CacheSystem) → follow l (e ∷ l) c ≡ call_back e c
follow_called l e c = ground arith

-- What a step of the gate does to the refresher.
abbrev pub Follows : Bool → CacheSystem → Bool → CacheSystem → Type 0
Follows b c b' c' =
    ((c' ≡ c) × (b' ≡ b))
    ⊎ ((c' ≡ call_back wake_fn c) × (b ≡ true) × (b' ≡ false))
    ⊎ ((c' ≡ call_back sleep_fn c) × (b ≡ false) × (b' ≡ true))

pub Switches-Follows :
    (l l' : List Effect) (b b' : Bool) (c : CacheSystem)
    → Switches l b l' b'
    → Follows b c b' (follow l l' c)
Switches-Follows l l' b b' c (inl (e, f)) = inl (ap (λ k. follow l k c) e ∙ follow_same l c, f)
Switches-Follows l l' b b' c (inr (inl (e, f, g))) =
    inr (inl (ap (λ k. follow l k c) e ∙ follow_called l wake_fn c, f, g))
Switches-Follows l l' b b' c (inr (inr (inl (e, f, g)))) =
    inr (inr (ap (λ k. follow l k c) e ∙ follow_called l sleep_fn c, f, g))
Switches-Follows l l' b b' c (inr (inr (inr (e, f, g)))) =
    inl (ap (λ k. follow l k c) e ∙ follow_called l exit_fn c, g ∙ sym f)

-- Each part of a reachable state is reachable on its own.
pub record Parts (w : Whole) : Type 0 where
  pub gate : IdleSteps.Reachable w.idle
  pub cache : Cache.Reachable w.caching

follow-Reachable :
    {s t : IdleSystem} {c : CacheSystem}
    → IdleSteps.Step s t
    → IdleInvariant.Inv s
    → Cache.Reachable c
    → Cache.Reachable (follow s.gate.log t.gate.log c)
follow-Reachable {s} {t} {c} st v r =
    by_call (
      Switches-Follows s.gate.log t.gate.log s.gate.sleeping t.gate.sleeping c (Step-Switches st v))
  where
    by_call :
        Follows s.gate.sleeping c t.gate.sleeping (follow s.gate.log t.gate.log c)
        → Cache.Reachable (follow s.gate.log t.gate.log c)
    by_call (inl (e, f)) = rw e r
    by_call (inr (inl (e, _, _))) = rw e (Cache.later r Cache.activates)
    by_call (inr (inr (e, _, _))) = rw e (Cache.later r Cache.deactivates)

pub Step-Parts : {w u : Whole} → Step w u → Parts w → Parts u
Step-Parts (switches st) p =
    let (procs, gc, exits, r) = p.gate in
    record {
      gate = (procs, gc, exits, IdleSteps.later r st);
      cache = follow-Reachable st (IdleInvariant.Reachable-Inv p.gate) p.cache;
    }
Step-Parts (requests method path key u n e) p = record {
  gate = p.gate;
  cache = Cache.later p.cache (Cache.gets key);
}
Step-Parts (polls key u n) p = record {
  gate = p.gate;
  cache = Cache.later p.cache (Cache.gets key);
}
Step-Parts (stores f body status u q) p = record {
  gate = p.gate;
  cache = Cache.later p.cache (Cache.stores f body status q);
}
Step-Parts (finishes f u q) p = record {
  gate = p.gate;
  cache = Cache.later p.cache (Cache.ends f q);
}
Step-Parts (elapses n) p = record { gate = p.gate; cache = Cache.later p.cache (Cache.elapses n) }

pub booted-Parts : (procs : ℕ) (gc : ℤ) (exits : Bool) → Parts (booted_whole procs gc exits)
booted-Parts procs gc exits = record {
  gate = (procs, gc, exits, IdleSteps.here);
  cache = Cache.later Cache.here Cache.deactivates;
}
