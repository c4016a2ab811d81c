-- ===== src/Whole.antt =====
-- The running program: the gate of idle.go over the refresher of refresher.go, as `init` of idle.go
-- wires them, and the requests that `srv.Serve` of cmd/zdash/main.go hands to the handlers.
pub mod Links
pub mod Linked
pub mod Sessions
mod Tests
use Prim.Native.String.{String}
use zdash.Prelude.{
  ℕ, suc, ◌+◌, ◌<◌, ◌≡◌, Bool, true, false, List, [], ◌∷◌, some, ◌==◌, if◌then◌else◌, Bytes, length,
  Pick,
}
use zdash.Prelude.Int.{ℤ}
use zdash.Idle.{Effect, wake_fn, sleep_fn, exit_fn}
use zdash.Idle.System.{System as IdleSystem, booted, Runs}
use zdash.Idle.Steps.{Step as IdleStep}
use zdash.Refresh.{set_active, get, store, fetch_done}
use zdash.Refresh.System.{System as CacheSystem, Fetch, started, begin, activate, deactivate}
use zdash.Web.{route, api}

pub record Whole : Type 0 where
  pub idle : IdleSystem
  pub caching : CacheSystem

-- what `wakeFn` and `sleepFn` do to the refresher, under `g.mu`
abbrev pub call_back : Effect → CacheSystem → CacheSystem
call_back wake_fn c = activate c (set_active true c.cache)
call_back sleep_fn c = deactivate c (set_active false c.cache)
call_back exit_fn c = c

-- The callback of a step of the gate, found by its entry in the log.
abbrev pub follow : List Effect → List Effect → CacheSystem → CacheSystem
follow before [] c = c
follow before (e ∷ after) c = if length after == length before then call_back e c else c

-- `BootSleep`, with the server about to accept
abbrev pub booted_whole : ℕ → ℤ → Bool → Whole
booted_whole procs gc exits = record {
  idle = booted procs gc exits;
  caching = call_back sleep_fn started;
}

pub data Step (w : Whole) : Whole → Type 0 where
  -- a step of the gate, with the callback that it calls
  switches :
      {t : IdleSystem}
      → IdleStep w.idle t
      → Step w (record { idle = t; caching = follow w.idle.gate.log t.gate.log w.caching })
  -- a request on a served connection, in its first hold of `r.mu`
  requests :
      (method path key : String)
      → Runs w.idle.phase
      → 0 < length w.idle.serving
      → route method path ≡ some (api key)
      → Step w (record w {
        caching = begin key w.caching (get w.caching.now w.caching.cache key w.caching.calls);
      })
  -- a `get` of a refresh loop, a stopped one that is late included
  polls :
      (key : String)
      → Runs w.idle.phase
      → 0 < w.caching.loops + w.caching.stopped
      → Step w (record w {
        caching = begin key w.caching (get w.caching.now w.caching.cache key w.caching.calls);
      })
  -- a fetch: its store, and its deferred delete
  stores :
      (f : Fetch) (body : Bytes) (status : ℕ) {rest : List Fetch}
      → Runs w.idle.phase
      → Pick f w.caching.fetching rest
      → Step w (record w {
        caching = record (w.caching) {
          cache = store w.caching.now f.key f.gen body status w.caching.cache;
          fetching = rest;
          stored = f ∷ w.caching.stored;
        };
      })
  finishes :
      (f : Fetch) {rest : List Fetch}
      → Runs w.idle.phase
      → Pick f w.caching.stored rest
      → Step w (record w {
        caching = record (w.caching) { cache = fetch_done f.key w.caching.cache; stored = rest };
      })
  elapses : (n : ℕ) → Step w (record w { caching = record (w.caching) { now = w.caching.now + n } })

pub data Reach (w : Whole) : Whole → Type 0 where
  here : Reach w w
  later : {u v : Whole} → Reach w u → Step u v → Reach w v

abbrev pub Reachable : Whole → Type 0
Reachable w = (procs : ℕ) × (gc : ℤ) × (exits : Bool) × Reach (booted_whole procs gc exits) w
