-- ===== src/Listener.antt =====
-- listener.go, listener_linux.go and listener_stub.go: the adoption of a socket that systemd passes,
-- and the bind. `net.FileListener` and `net.Listen` are arguments.
pub mod Adoption
pub mod Tests
use zdash.Prelude.{
  ℕ, Bool, true, false, not, ◌&&◌, List, [], ◌∷◌, ◌++◌, Option, none, some, if◌then◌else◌, Bytes,
  codes, equal,
}
use zdash.Prelude.Int.{ℤ, pos, lt_int, eq_int}
use zdash.Text.Numbers.{atoi}

-- A `net.Listener`: that of a file descriptor, or one bound to an address.
pub data Bound : Type 0 where
  adopted : (fd : ℕ) → Bound
  bound : (addr : Bytes) → Bound

-- The descriptors kept in `passedFiles`, and those closed.
pub record Files : Type 0 where
  pub passed_files : List ℕ
  pub closed : List ℕ

-- The parts of the environment that the protocol reads, and `os.Getpid()`.
pub record Environment : Type 0 where
  pub socket_activation : Bytes
  pub listen_fds : Bytes
  pub listen_pid : Bytes
  pub pid : ℕ

pid_matches : Option ℤ → ℕ → Bool
pid_matches none pid = false
pid_matches (some n) pid = eq_int n (pos pid)

fds_passed : Option ℤ → Bool
fds_passed none = false
fds_passed (some n) = not (lt_int n (pos 1))

-- `activatedBySystemd`
unfoldable pub activated_by_systemd : Environment → Bool
unfolding pid_matches fds_passed
activated_by_systemd env =
    if fds_passed (atoi env.listen_fds) then pid_matches (atoi env.listen_pid) env.pid else false

module _ (is_socket : ℕ → Bool) where
  -- `adoptListener`; `net.FileListener` succeeds on a socket.
  adopt_listener : ℕ → Files → Files × Option Bound
  adopt_listener fd files =
      if is_socket fd
      then (record files { passed_files = files.passed_files ++ fd ∷ [] }, some (adopted fd))
      else (record files { closed = fd ∷ files.closed }, none)

  -- `systemdListener` of listener_linux.go
  unfoldable pub systemd_listener : Environment → Files → Files × Option Bound
  unfolding adopt_listener activated_by_systemd equal
  systemd_listener env files =
      if not (equal env.socket_activation (codes "1"))
      then (files, none)
      else if not (activated_by_systemd env)
      then (files, none)
      else adopt_listener 3 files

-- `systemdListener` of listener_stub.go, on every system but Linux
unfoldable pub no_systemd_listener : Environment → Files → Files × Option Bound
no_systemd_listener env files = (files, none)

-- The result of `Listen`: a listener, or `bind <addr>: …`.
pub data Listened : Type 0 where
  listening : Bound → Listened
  bind_failed : (addr : Bytes) → Listened

module _ (can_bind : Bytes → Bool) where
  bind : Bytes → Files → Option Bound → Files × Listened
  bind addr files (some ln) = (files, listening ln)
  bind addr files none =
      if can_bind addr then (files, listening (bound addr)) else (files, bind_failed addr)

  -- `Listen`, over one of the two versions of `systemdListener`
  unfoldable pub listen :
      (Environment → Files → Files × Option Bound) → Bytes → Environment → Files → Files × Listened
  unfolding bind
  listen systemd addr env files = let (files', ln) = systemd env files in bind addr files' ln
