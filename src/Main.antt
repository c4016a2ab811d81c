-- ===== src/Main.antt =====
-- cmd/zdash/main.go: the start of the process. The listener, the runtime and the environment are
-- arguments; `srv.Serve` is the system of `Idle.System`.
pub mod Startup
mod Tests
use zdash.Prelude.{ℕ, Bool, true, false, List, [], Option, Bytes, codes, equal, if◌then◌else◌, not}
use zdash.Prelude.Int.{ℤ}
use zdash.Idle.{IdleGate, new_idle_gate, exit_on_idle, enter_sleep}
use zdash.Listener.{Bound, Environment, Files, Listened, listening, bind_failed, listen}

-- `zdash.Version` behind the version of package main
unfoldable pub linked_version : Bytes → Bytes → Bytes
linked_version version zdash_version =
    if not (equal version (codes "dev")) then version else zdash_version

-- `addr`, at the value of $BIND_ADDR
unfoldable pub bind_addr : Bytes → Bytes
bind_addr v = if equal v [] then codes "127.0.0.1:8080" else v

-- The process behind the start: `log.Fatalf`, or a server over a listener and a gate.
pub data Started : Type 0 where
  fatal : (addr : Bytes) → Started
  serving : Bound → IdleGate → Started

with_listener : Bytes → IdleGate → Listened → Started
with_listener exit_env g (bind_failed addr) = fatal addr
with_listener exit_env g (listening ln) =
    serving ln (enter_sleep (if equal exit_env (codes "1") then exit_on_idle g else g))

-- `main`, from the listener to `srv.Serve`, at $BIND_ADDR and $EXIT_ON_IDLE
unfoldable pub start :
    (Bytes → Bool)
    → (Environment → Files → Files × Option Bound)
    → Bytes
    → Bytes
    → ℕ
    → ℤ
    → Environment
    → Files
    → Started
unfolding with_listener
start can_bind systemd bind_env exit_env procs gc env files =
    with_listener exit_env (new_idle_gate procs gc)
      (listen can_bind systemd (bind_addr bind_env) env files).1
