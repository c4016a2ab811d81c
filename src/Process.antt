-- ===== src/Process.antt =====
-- The glue of idle.go's `init`, `runtimeWake` and `runtimeSleep`: what the gate's callbacks do to the
-- Go runtime and to the process-wide refresher `cache`.
pub mod Profile
mod Tests
use zdash.Prelude.{ℕ, Bool, true, false, List, [], ◌∷◌, length, ◌≡◌}
use zdash.Prelude.Int.{ℤ, negsuc}
use zdash.Idle.{Effect, wake_fn, sleep_fn, exit_fn}
use zdash.Refresh.{Refresher, set_active}

-- The runtime's settings, and the entries that the cache held when memory was last handed back.
pub record Process : Type 0 where
  pub procs : ℕ  -- `runtime.GOMAXPROCS`
  pub gc_percent : ℤ  -- `debug.SetGCPercent`
  pub held_at_free : ℕ  -- at the last `debug.FreeOSMemory`
  pub cache : Refresher
  pub gone : Bool  -- behind `os.Exit(0)`

-- `runtimeWake`
pub runtime_wake : ℕ → ℤ → Process → Process
runtime_wake procs gc p = record p { procs = procs; gc_percent = gc }

-- `runtimeSleep`
pub runtime_sleep : Process → Process
runtime_sleep p = record p {
  gc_percent = negsuc 0;
  held_at_free = length p.cache.entries;
  procs = 1;
}

-- `sessions.wakeFn`, `sessions.sleepFn` and `sessions.exit`, for a gate with these settings
pub run_effect : ℕ → ℤ → Effect → Process → Process
unfolding runtime_wake runtime_sleep
run_effect procs gc wake_fn p =
    let q = runtime_wake procs gc p in record q { cache = (set_active true q.cache).0 }
run_effect procs gc sleep_fn p = runtime_sleep (record p { cache = (set_active false p.cache).0 })
run_effect procs gc exit_fn p = record p { gone = true }
