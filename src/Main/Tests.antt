-- ===== src/Main/Tests.antt =====
-- A start with an adopted socket.
use zdash.Prelude.{◌≡◌, ◌⊎◌, refl, [], Bytes, codes, equal}
use zdash.Prelude.Int.{pos}
use zdash.Idle.{IdleGate}
use zdash.Listener.{Bound, systemd_listener, listen, listening, bind_failed}
use zdash.Listener.Tests.{no_files, activated, only_fd_3, any_address}
use zdash.Main.{bind_addr, fatal, serving, start}
use zdash.Main.Startup.{IsParked, start_cases}

default_addr : bind_addr [] ≡ codes "127.0.0.1:8080"
unfolding bind_addr equal
default_addr = refl

start_cases_example :
    let systemd = systemd_listener only_fd_3 in
    let listened = (listen any_address systemd (bind_addr []) activated no_files).1 in
    let started = start any_address systemd [] (codes "1") 4 (pos 100) activated no_files in
    ((ln : Bound) × (g : IdleGate) × (listened ≡ listening ln)
      × (started ≡ serving ln g)
      × IsParked 4 (pos 100) (equal (codes "1") (codes "1")) g)
    ⊎ ((addr : Bytes) × (listened ≡ bind_failed addr) × (started ≡ fatal addr))
start_cases_example =
    start_cases any_address (systemd_listener only_fd_3) [] (codes "1") 4 (pos 100) activated
      no_files
