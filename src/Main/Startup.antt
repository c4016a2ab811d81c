-- ===== src/Main/Startup.antt =====
-- A started process sleeps until its first connection.
use zdash.Prelude.{
  ℕ, ◌≡◌, ◌⊎◌, refl, ap, Bool, true, false, [], ◌∷◌, Option, none, Bytes, codes, equal, inl, inr,
}
use zdash.Prelude.Int.{ℤ}
use zdash.Idle.{IdleGate, sleep_fn, new_idle_gate, exit_on_idle, enter_sleep}
use zdash.Idle.System.{booted, booted_gate}
use zdash.Listener.{Bound, Environment, Files, Listened, listening, bind_failed, listen}
use zdash.Main.{Started, fatal, serving, bind_addr, with_listener, start}

-- The gate that the server starts with.
pub record IsParked (procs : ℕ) (gc : ℤ) (exits : Bool) (g : IdleGate) : Type 0 where
  asleep : g.sleeping ≡ true
  unarmed : (g.timer ≡ none) × (g.sess ≡ none)
  unconnected : (g.conns ≡ 0) × (g.live_conns ≡ [])
  exiting : g.exit_on_idle ≡ exits
  called : g.log ≡ sleep_fn ∷ []
  booted_so : g ≡ (booted procs gc exits).gate

booted-IsParked :
    (procs : ℕ) (gc : ℤ) (exits : Bool) → IsParked procs gc exits (booted_gate procs gc exits)
unfolding new_idle_gate exit_on_idle enter_sleep
booted-IsParked procs gc true = record {
  asleep = refl;
  unarmed = (refl, refl);
  unconnected = (refl, refl);
  exiting = refl;
  called = refl;
  booted_so = refl;
}
booted-IsParked procs gc false = record {
  asleep = refl;
  unarmed = (refl, refl);
  unconnected = (refl, refl);
  exiting = refl;
  called = refl;
  booted_so = refl;
}

module _ (can_bind : Bytes → Bool) (systemd : Environment → Files → Files × Option Bound)
    (bind_env exit_env : Bytes) (procs : ℕ) (gc : ℤ) (env : Environment) (files : Files) where
  abbrev listened : Listened
  listened = (listen can_bind systemd (bind_addr bind_env) env files).1

  abbrev started : Started
  started = start can_bind systemd bind_env exit_env procs gc env files

  abbrev Outcome : Type 0
  Outcome =
      ((ln : Bound) × (g : IdleGate) × (listened ≡ listening ln)
        × (started ≡ serving ln g)
        × IsParked procs gc (equal exit_env (codes "1")) g)
      ⊎ ((addr : Bytes) × (listened ≡ bind_failed addr) × (started ≡ fatal addr))

  by_listened : (l : Listened) → listened ≡ l → Outcome
  unfolding start
  by_listened (listening ln) e = inl (
    ln,
    booted_gate procs gc (equal exit_env (codes "1")),
    e,
    ap (with_listener exit_env _) e,
    booted-IsParked procs gc (equal exit_env (codes "1")),
  )
  by_listened (bind_failed addr) e = inr (addr, e, ap (with_listener exit_env _) e)

  -- `main` either gives up because no listener could be made, or serves over the listener with a gate
  -- that is asleep after one call of `sleepFn`, with no timer armed, no connection counted or live,
  -- and set to exit on idle exactly when $EXIT_ON_IDLE is 1; from it the runs of `Idle.Steps` start.
  pub start_cases : Outcome
  start_cases = by_listened listened refl
