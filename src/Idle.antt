-- ===== src/Idle.antt =====
-- idle.go: the gate that drives the process between awake and deep sleep. A method is a function
-- from gate to gate for each of its critical sections under `g.mu`; the calls of the callbacks
-- are recorded in `log`, newest first. A timer that nothing refers to lives on in `Idle.System`.
pub mod System
pub mod Steps
pub mod Invariant
pub mod Safety
pub mod Callbacks
pub mod Cap
pub mod Rest
pub mod Calls
pub mod Closing
mod Tests
use zdash.Prelude.{
  ℕ, ◌+◌, ◌-◌, ◌*◌, Bool, true, false, not, ◌&&◌, ◌||◌, List, [], ◌∷◌, Option, none, some, ◌==◌,
  if◌then◌else◌, Bytes, codes, equal,
}
use zdash.Prelude.Int.{ℤ, pos, negsuc}
use zdash.Text.Numbers.{atoi}

-- A `*time.Timer` made by `time.AfterFunc`: before, and after, the runtime started its callback.
pub data Timer : Type 0 where
  ticking expired : Timer

-- What the callbacks `wakeFn`, `sleepFn` and `exit` were called for.
pub data Effect : Type 0 where
  wake_fn sleep_fn exit_fn : Effect

-- `http.ConnState`
pub data ConnState : Type 0 where
  state_new state_active state_idle state_hijacked state_closed : ConnState

-- A `net.Conn` is its number; durations are in seconds.
pub record IdleGate : Type 0 where
  pub conns : ℕ
  pub live_conns : List ℕ
  pub sess : Option Timer
  pub max_session : ℕ
  pub sleeping : Bool
  pub timer : Option Timer
  pub awake_procs : ℕ
  pub awake_gc : ℤ
  pub grace : ℕ
  pub exit_on_idle : Bool
  pub log : List Effect

-- `idleGrace`
abbrev pub idle_grace : ℕ
idle_grace = 3

-- `maxSession`
abbrev pub session_cap : ℕ
session_cap = 4 * 60

-- `newIdleGate`, at `runtime.GOMAXPROCS(0)` and `envGOGC()`
unfoldable pub new_idle_gate : ℕ → ℤ → IdleGate
new_idle_gate procs gc = record {
  conns = 0;
  live_conns = [];
  sess = none;
  max_session = session_cap;
  sleeping = false;
  timer = none;
  awake_procs = procs;
  awake_gc = gc;
  grace = idle_grace;
  exit_on_idle = false;
  log = [];
}

abbrev int_or : ℤ → Option ℤ → ℤ
int_or d none = d
int_or d (some n) = n

-- `envGOGC`, at the value of $GOGC
unfoldable pub env_gogc : Bytes → ℤ
unfolding equal
env_gogc v =
    if equal v (codes "off")
    then negsuc 0
    else if equal v []
    then pos 100
    else int_or (pos 100) (atoi v)

abbrev pub is_none {ℓ} : {A : Type ℓ} → Option A → Bool
is_none none = true
is_none (some _) = false

-- `armSessionLocked`
unfoldable pub arm_session_locked : IdleGate → IdleGate
arm_session_locked g =
    if is_none g.sess && not g.sleeping then record g { sess = some ticking } else g

-- `wake`; `g.timer.Stop()` ends a ticking timer and does nothing to an expired one.
unfoldable pub wake : IdleGate → IdleGate
unfolding arm_session_locked
wake g =
    let g' = record g { timer = none } in
    if not g.sleeping
    then arm_session_locked g'
    else (let armed = arm_session_locked (record g' { sleeping = false }) in
        record armed { log = wake_fn ∷ armed.log })

-- `scheduleSleep`
unfoldable pub schedule_sleep : IdleGate → IdleGate
schedule_sleep g =
    if g.sleeping || not (is_none g.timer) then g else record g { timer = some ticking }

-- `trySleep` down to the call of `sleepFn`; the flag says that the call went on to park.
unfoldable pub try_sleep_park : IdleGate → IdleGate × Bool
try_sleep_park g =
    let g' = record g { timer = none; sess = none } in
    if g.sleeping || not (g.conns == 0)
    then (g', false)
    else (record g' { sleeping = true; log = sleep_fn ∷ g.log }, true)

-- The rest of `trySleep`: the test that reads the counter again, with no lock that the hooks take for
-- it, and behind the log line the call of `exit`.
unfoldable pub try_sleep_exit : IdleGate → Bool
try_sleep_exit g = g.exit_on_idle && g.conns == 0

unfoldable pub call_exit : IdleGate → IdleGate
call_exit g = record g { log = exit_fn ∷ g.log }

-- `enterSleep`
unfoldable pub enter_sleep : IdleGate → IdleGate
enter_sleep g =
    let g' = record g { timer = none; sess = none } in
    if g.sleeping then g' else record g' { sleeping = true; log = sleep_fn ∷ g.log }

-- `endSession` down to its first `Unlock`: the gate, and the connections to close.
unfoldable pub end_session_take : IdleGate → IdleGate × List ℕ
end_session_take g = (record g { sess = none; live_conns = [] }, g.live_conns)

abbrev pub remove_conn : ℕ → List ℕ → List ℕ
remove_conn c [] = []
remove_conn c (d ∷ ds) = if d == c then remove_conn c ds else d ∷ remove_conn c ds

-- `g.conns.Add(1)`, with the test `== 1`
unfoldable pub conn_add : IdleGate → IdleGate × Bool
conn_add g = (record g { conns = g.conns + 1 }, g.conns + 1 == 1)

-- `g.conns.Add(-1)`, with the test `== 0`
unfoldable pub conn_drop : IdleGate → IdleGate × Bool
conn_drop g = (record g { conns = g.conns - 1 }, g.conns == 1)

-- `g.liveConns[c] = struct{}{}`
unfoldable pub live_insert : ℕ → IdleGate → IdleGate
live_insert c g = record g { live_conns = c ∷ remove_conn c g.live_conns }

-- `delete(g.liveConns, c)`
unfoldable pub live_delete : ℕ → IdleGate → IdleGate
live_delete c g = record g { live_conns = remove_conn c g.live_conns }

-- `connState`, run with nothing in between its steps
unfoldable pub conn_state : ℕ → ConnState → IdleGate → IdleGate
unfolding conn_add conn_drop wake schedule_sleep live_insert live_delete
conn_state c state_new g =
    let (g', first) = conn_add g in live_insert c (if first then wake g' else g')
conn_state c state_closed g =
    let (g', last) = conn_drop g in live_delete c (if last then schedule_sleep g' else g')
conn_state c state_hijacked g =
    let (g', last) = conn_drop g in live_delete c (if last then schedule_sleep g' else g')
conn_state c state_active g = g
conn_state c state_idle g = g

-- `ExitOnIdle`
unfoldable pub exit_on_idle : IdleGate → IdleGate
exit_on_idle g = record g { exit_on_idle = true }
