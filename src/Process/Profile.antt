-- ===== src/Process/Profile.antt =====
-- The process follows the gate: asleep it is parked with an empty hand, awake it runs at full width.
use Prim.Native.String.{String}
use zdash.Prelude.{
  ℕ, ◌≡◌, ◌≢◌, ◌⊎◌, refl, Bool, true, false, not, if◌then◌else◌, List, [], ◌∷◌, arith, Bytes,
}
use zdash.Prelude.Int.{ℤ, negsuc}
use zdash.Idle.{Effect, wake_fn, sleep_fn, exit_fn}
use zdash.Idle.System.{System, Phase, unlocked, parked, leaving, exited}
use zdash.Idle.Steps.{Reachable}
use zdash.Idle.Callbacks.{Alternates, Orderly, started, slept, woken, callbacks_alternate}
use zdash.Refresh.{Refresher, set_active, get, store, fetch_done, flush}
use zdash.Process.{Process, run_effect}

-- One hold of the refresher's lock by a fetch or a request.
pub data Works (r : Refresher) : Refresher → Type 0 where
  asks : (now : ℕ) (key : String) (call : ℕ) → Works r (get now r key call).0
  keeps :
      (now : ℕ) (key : String) (gen : ℕ) (body : Bytes) (status : ℕ)
      → Works r (store now key gen body status r)
  drops : (key : String) → Works r (fetch_done key r)
  empties : Works r (flush r)

-- A process from its start, through the callbacks of the gate (newest first) and, between them, any
-- use of the refresher.
pub data Runs (procs : ℕ) (gc : ℤ) : List Effect → Process → Type 0 where
  boots : (p : Process) → p.gone ≡ false → Runs procs gc [] p
  calls :
      {l : List Effect} {p : Process} (e : Effect)
      → Runs procs gc l p
      → Runs procs gc (e ∷ l) (run_effect procs gc e p)
  works :
      {l : List Effect} {p : Process} {r : Refresher}
      → Runs procs gc l p
      → Works p.cache r
      → Runs procs gc l (record p { cache = r })

Works-active : {r r' : Refresher} → Works r r' → r'.active ≡ r.active
unfolding get store fetch_done flush
Works-active (asks now key call) = ground arith
Works-active (keeps now key gen body status) = ground arith
Works-active (drops key) = refl
Works-active empties = refl

-- What a process looks like behind these callbacks.
abbrev pub Profile : ℕ → ℤ → List Effect → Process → Type 0
Profile procs gc [] p = p.gone ≡ false
Profile procs gc (wake_fn ∷ l) p = (p.cache.active ≡ true) × (p.procs ≡ procs) × (p.gc_percent ≡ gc)
Profile procs gc (sleep_fn ∷ l) p =
    (p.cache.active ≡ false) × (p.procs ≡ 1) × (p.gc_percent ≡ negsuc 0) × (p.held_at_free ≡ 0)
Profile procs gc (exit_fn ∷ l) p = p.gone ≡ true

Runs-Profile :
    {procs : ℕ} {gc : ℤ} {l : List Effect} {p : Process} → Runs procs gc l p → Profile procs gc l p
unfolding run_effect set_active
Runs-Profile (boots p h) = h
Runs-Profile (calls wake_fn r) = ground arith
Runs-Profile (calls sleep_fn r) = ground arith
Runs-Profile (calls exit_fn r) = refl
Runs-Profile (works {l = []} r w) = Runs-Profile r
Runs-Profile (works {l = wake_fn ∷ l} r w) = ground (arith, Runs-Profile r, Works-active w)
Runs-Profile (works {l = sleep_fn ∷ l} r w) = ground (arith, Runs-Profile r, Works-active w)
Runs-Profile (works {l = exit_fn ∷ l} r w) = Runs-Profile r

Alternates-Profile :
    (procs : ℕ) (gc : ℤ) {l : List Effect} {sleeping : Bool} (p : Process)
    → Alternates l sleeping
    → Profile procs gc l p
    → (p.cache.active ≡ not sleeping)
      × (p.procs ≡ (if sleeping then 1 else procs))
      × (p.gc_percent ≡ (if sleeping then negsuc 0 else gc))
      × ((sleeping ≡ false) ⊎ (p.held_at_free ≡ 0))
Alternates-Profile procs gc p started h = ground arith
Alternates-Profile procs gc p (slept l a) h = ground arith
Alternates-Profile procs gc p (woken l a) h = ground arith

Orderly-Alternates :
    (q : Phase) {l : List Effect} {sleeping : Bool}
    → q ≢ exited
    → Orderly q l sleeping
    → Alternates l sleeping
Orderly-Alternates unlocked n o = o
Orderly-Alternates parked n o = o
Orderly-Alternates leaving n o = o
Orderly-Alternates exited n o = absurd (n refl)

-- In every reachable state of the gate short of the exit, after the callbacks made so far and any
-- use of the refresher between them: the cache is active exactly while the gate is awake, the
-- runtime has its full width and collector awake, and one thread and no collector asleep; asleep,
-- memory was handed back only behind the drop of every cached answer.
pub process_follows_gate :
    {s : System} {procs : ℕ} {gc : ℤ} {p : Process}
    → Reachable s
    → s.phase ≢ exited
    → Runs procs gc s.gate.log p
    → (p.cache.active ≡ not s.gate.sleeping)
      × (p.procs ≡ (if s.gate.sleeping then 1 else procs))
      × (p.gc_percent ≡ (if s.gate.sleeping then negsuc 0 else gc))
      × ((s.gate.sleeping ≡ false) ⊎ (p.held_at_free ≡ 0))
process_follows_gate {s} {procs} {gc} {p} r n h =
    Alternates-Profile procs gc p (Orderly-Alternates s.phase n (callbacks_alternate r))
      (Runs-Profile h)
