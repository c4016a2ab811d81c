-- ===== src/Listener/Adoption.antt =====
-- When a passed socket is adopted.
use zdash.Prelude.{
  ℕ, ◌≤◌, ◌≡◌, ◌⊎◌, ◌↔◌, refl, Bool, true, false, [], ◌∷◌, ◌++◌, Option, none, some, Bytes, codes,
  equal, equal_iff, arith,
}
use zdash.Prelude.Int.{ℤ, pos, negsuc}
use zdash.Text.Numbers.{atoi}
use zdash.Listener.{
  activated_by_systemd, Bound, fds_passed, adopted, bound, Files, Environment, listening,
  bind_failed, systemd_listener, listen,
}

-- The protocol of systemd: opted in, at least one descriptor, and for this process.
pub record Offered (env : Environment) : Type 0 where
  pub opted_in : env.socket_activation ≡ codes "1"
  pub fds : (n : ℕ) × (atoi env.listen_fds ≡ some (pos n)) × (1 ≤ n)
  pub for_us : atoi env.listen_pid ≡ some (pos env.pid)

fds_positive : (o : Option ℤ) → fds_passed o ≡ true → (n : ℕ) × (o ≡ some (pos n)) × (1 ≤ n)
unfolding fds_passed
fds_positive none h = absurd (cc)
fds_positive (some (pos n)) h = (n, refl, ground arith)
fds_positive (some (negsuc n)) h = absurd (cc)

-- On Linux descriptor 3 is adopted exactly when it is a socket and is offered by the protocol: the
-- opt-in is 1, at least one descriptor is passed, and the process named is this one.
pub adopts_iff :
    (is_socket : ℕ → Bool) (env : Environment) (files : Files)
    → ((systemd_listener is_socket env files).1 ≡ some (adopted 3))
      ↔ (Offered env × (is_socket 3 ≡ true))
unfolding systemd_listener
adopts_iff is_socket env files = (
  λ h. (
    record {
      opted_in = ground (arith, equal_iff env.socket_activation (codes "1"));
      fds = fds_positive (atoi env.listen_fds) (ground arith);
      for_us = ground arith;
    },
    ground arith,
  ),
  λ o. ground (arith, equal_iff env.socket_activation (codes "1")),
)

-- What becomes of the files, and of a listener from systemd.
abbrev pub Taken : (ℕ → Bool) → Environment → Files → Files × Option Bound → Type 0
Taken is_socket env files (files', ln) =
    (Offered env
      × (is_socket 3 ≡ true)
      × (ln ≡ some (adopted 3))
      × (files' ≡ record files { passed_files = files.passed_files ++ 3 ∷ [] }))
    ⊎ (Offered env
        × (is_socket 3 ≡ false)
        × (ln ≡ none)
        × (files' ≡ record files { closed = 3 ∷ files.closed }))
    ⊎ ((Offered env → ⊥) × (ln ≡ none) × (files' ≡ files))

Offered-activated_by_systemd :
    (env : Environment)
    → Offered env
      ↔ ((equal env.socket_activation (codes "1") ≡ true) × (activated_by_systemd env ≡ true))
unfolding activated_by_systemd
Offered-activated_by_systemd env = (
  λ o. ground (arith, equal_iff env.socket_activation (codes "1")),
  λ h. record {
    opted_in = ground (arith, equal_iff env.socket_activation (codes "1"));
    fds = fds_positive (atoi env.listen_fds) (ground arith);
    for_us = ground arith;
  },
)

systemd_listener-Taken :
    (is_socket : ℕ → Bool) (env : Environment) (files : Files)
    → Taken is_socket env files (systemd_listener is_socket env files)
unfolding systemd_listener
systemd_listener-Taken is_socket env files = ground (arith, Offered-activated_by_systemd env)

-- `Listen` on Linux, in three cases. Offered a socket, it adopts descriptor 3 and keeps it from its
-- finalizer. Offered something else at descriptor 3, it closes that, so that it does not leak. Not
-- offered any, it leaves all descriptors as they are. In the last two cases it binds the address
-- itself, and fails exactly if that does, naming the address.
pub listen_cases :
    (is_socket : ℕ → Bool) (can_bind : Bytes → Bool) (addr : Bytes) (env : Environment)
    (files : Files)
    → let (files', result) = listen can_bind (systemd_listener is_socket) addr env files in
      (Offered env
        × (is_socket 3 ≡ true)
        × (result ≡ listening (adopted 3))
        × (files' ≡ record files { passed_files = files.passed_files ++ 3 ∷ [] }))
      ⊎ (((Offered env
              × (is_socket 3 ≡ false)
              × (files' ≡ record files { closed = 3 ∷ files.closed }))
            ⊎ ((Offered env → ⊥) × (files' ≡ files)))
          × (((can_bind addr ≡ true) × (result ≡ listening (bound addr)))
              ⊎ ((can_bind addr ≡ false) × (result ≡ bind_failed addr))))
unfolding listen
listen_cases is_socket can_bind addr env files =
    ground (arith, systemd_listener-Taken is_socket env files)
