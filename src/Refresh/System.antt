-- ===== src/Refresh/System.antt =====
-- The refresher with the fetches, loops and sessions around it: each hold of the lock is a step.
use Prim.Native.String.{String}
use text.Mathlib.Text.{◌==◌ as str_eq}
use zdash.Prelude.{
  ℕ, suc, ◌+◌, Bool, true, false, List, [], ◌∷◌, if◌then◌else◌, Bytes, Pick, Option, some,
}
use zdash.Refresh.{
  Refresher, Start, StopChan, is_open, answer, join, launch, new_refresher, set_active, get, store,
  fetch_done, flush,
}

-- A fetch goroutine: its endpoint, the generation it read, and the session ends before its start.
pub record Fetch : Type 0 where
  pub key : String
  pub gen : ℕ
  pub born : ℕ

pub record System : Type 0 where
  pub cache : Refresher
  pub now : ℕ
  pub ends : ℕ  -- the calls of `setActive(false)` so far
  pub calls : ℕ  -- the calls of fetches so far
  pub fetching : List Fetch  -- the producer runs
  pub stored : List Fetch  -- behind the store, before the deferred delete
  pub loops : ℕ  -- refresh loops on the channel `r.stop`, while it is open
  pub stopped : ℕ  -- refresh loops whose channel was closed since, some of which may still run

abbrev pub started : System
started = record {
  cache = new_refresher;
  now = 0;
  ends = 0;
  calls = 0;
  fetching = [];
  stored = [];
  loops = 0;
  stopped = 0;
}

abbrev pub begin : String → System → Refresher × Start → System
begin key s (r, answer body status) = record s { cache = r }
begin key s (r, join call) = record s { cache = r }
begin key s (r, launch call gen) = record s {
  cache = r;
  calls = suc s.calls;
  fetching = record { key = key; gen = gen; born = s.ends } ∷ s.fetching;
}

abbrev pub activate : System → Refresher × Bool → System
activate s (r, spawned) = record s { cache = r; loops = s.loops + (if spawned then 1 else 0) }

-- whether the loops on `r.stop` still find it open
abbrev pub keeps_loops : Option StopChan → Bool
keeps_loops (some is_open) = true
keeps_loops _ = false

abbrev pub deactivate : System → Refresher × Bool → System
deactivate s (r, spawned) = record s {
  cache = r;
  ends = suc s.ends;
  loops = if keeps_loops r.stop then s.loops else 0;
  stopped = s.stopped + (if keeps_loops r.stop then 0 else s.loops);
}

pub data Step (s : System) : System → Type 0 where
  elapses : (n : ℕ) → Step s (record s { now = s.now + n })
  activates : Step s (activate s (set_active true s.cache))
  deactivates : Step s (deactivate s (set_active false s.cache))
  gets : (key : String) → Step s (begin key s (get s.now s.cache key s.calls))
  stores :
      (f : Fetch) (body : Bytes) (status : ℕ) {rest : List Fetch}
      → Pick f s.fetching rest
      → Step s (record s {
        cache = store s.now f.key f.gen body status s.cache;
        fetching = rest;
        stored = f ∷ s.stored;
      })
  ends :
      (f : Fetch) {rest : List Fetch}
      → Pick f s.stored rest
      → Step s (record s { cache = fetch_done f.key s.cache; stored = rest })
  flushes : Step s (record s { cache = flush s.cache })

pub data Reach (s : System) : System → Type 0 where
  here : Reach s s
  later : {t u : System} → Reach s t → Step t u → Reach s u

pub Reach-trans : {s t u : System} → Reach s t → Reach t u → Reach s u
Reach-trans r here = r
Reach-trans r (later q st) = later (Reach-trans r q) st

abbrev pub Reachable : System → Type 0
Reachable = Reach started

-- the running fetches of one endpoint
abbrev pub flights : String → List Fetch → ℕ
flights k [] = 0
flights k (f ∷ fs) = (if str_eq f.key k then 1 else 0) + flights k fs
