-- ===== src/Listener/Tests.antt =====
-- The adoption of a socket for process 7.
use zdash.Prelude.{
  ℕ, ◌≡◌, ◌↔◌, ◌⊎◌, refl, Bool, true, false, [], ◌∷◌, ◌++◌, some, Bytes, codes, ◌==◌,
}
use zdash.Text.Numbers.{atoi}
use zdash.Listener.{
  Files, Environment, adopted, bound, listening, bind_failed, systemd_listener, listen,
}
use zdash.Listener.Adoption.{Offered, adopts_iff, listen_cases}

abbrev pub no_files : Files
no_files = record { passed_files = []; closed = [] }

abbrev pub activated : Environment
activated = record {
  socket_activation = codes "1";
  listen_fds = codes "1";
  listen_pid = codes "7";
  pid = 7;
}

abbrev pub only_fd_3 : ℕ → Bool
only_fd_3 fd = fd == 3

abbrev pub any_address : Bytes → Bool
any_address addr = true

adopts : (systemd_listener only_fd_3 activated no_files).1 ≡ some (adopted 3)
unfolding systemd_listener zdash.Text.Numbers.parse_int
adopts = refl

adopts_iff_example :
    ((systemd_listener only_fd_3 activated no_files).1 ≡ some (adopted 3))
    ↔ (Offered activated × (only_fd_3 3 ≡ true))
adopts_iff_example = adopts_iff only_fd_3 activated no_files

listen_cases_example :
    let (files', result) =
      listen any_address (systemd_listener only_fd_3) (codes "127.0.0.1:8080") activated no_files in
    (Offered activated
      × (only_fd_3 3 ≡ true)
      × (result ≡ listening (adopted 3))
      × (files' ≡ record no_files { passed_files = no_files.passed_files ++ 3 ∷ [] }))
    ⊎ (((Offered activated
            × (only_fd_3 3 ≡ false)
            × (files' ≡ record no_files { closed = 3 ∷ no_files.closed }))
          ⊎ ((Offered activated → ⊥) × (files' ≡ no_files)))
        × (((any_address (codes "127.0.0.1:8080") ≡ true)
              × (result ≡ listening (bound (codes "127.0.0.1:8080"))))
            ⊎ ((any_address (codes "127.0.0.1:8080") ≡ false)
                × (result ≡ bind_failed (codes "127.0.0.1:8080")))))
listen_cases_example =
    listen_cases only_fd_3 any_address (codes "127.0.0.1:8080") activated no_files
