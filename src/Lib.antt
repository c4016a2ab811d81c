-- ===== src/Lib.antt =====
-- zdash: a dashboard for ZFS pools, one Go process that sleeps while nobody looks at it.
--
-- The parts of the program and the files that model them:
--   * Idle, Idle/System, Idle/Steps: idle.go. `idleGate` drives the process between awake and deep
--     sleep. `wake`, `scheduleSleep`, `trySleep`, `enterSleep`, `endSession`, `armSessionLocked` and
--     the hook `connState` are functions on the record `IdleGate`, one for each critical section
--     under `g.mu`; `trySleep` and `endSession` are split where other code may run in between, also
--     where only the counter may move: between the last test of `trySleep` and its call of `exit`.
--     `Idle.Steps.Step` lets the sections, the atomic counter and the timers go in any order, with
--     the timers that a field no longer names (`grace_orphans`, `cap_orphans`). Idle/Rest and
--     Idle/Closing are about runs of it, Idle/Calls about the callback of each step.
--   * Refresh, Refresh/System: refresher.go. `refresher` fetches each endpoint once at a time, serves
--     the last answer while it is fresh, and is switched on and off by the gate (`setActive`). `get`
--     is what it does in its first hold of `r.mu`; its goroutine is `store` and `fetch_done`.
--   * Refresh/Desk: the same, seen from its callers: each `fetchCall` by its number, with what its
--     goroutine has done so far, and each caller in `wait` up to the answer it is given.
--   * Refresh/Loop: `loop` of refresher.go between its two `select`s, with the stop channels that
--     `setActive` makes and closes. A tick may come at any time.
--   * Process: `runtimeWake` and `runtimeSleep`, which the gate calls and which switch the refresher.
--   * Whole: `init` of idle.go, the gate with the refresher that its callbacks switch, and the
--     requests that the handlers pass to it.
--   * Arc, SysInfo/..., Smart, Smart/Report: arc.go, sysinfo.go and smart.go, the parsers of kernel
--     files and of smartctl's output, and the values that the endpoints show. The self-test shown is
--     the last row of smartctl's log, which smartctl prints with the newest test first.
--   * Pools: the types of api.go, with Pools/Decode and Pools/Encode for what `json.Unmarshal` and
--     `json.Marshal` do to their fields, and Pools/Served for `fetchZpool` and `produceZpool` at them.
--   * Produce: the four producers (`produceZpool`, `produceARC`, `produceSysInfo`, `produceSmart`)
--     that the refresher runs. Web: `serveRefresh`, which serves what the refresher has, the index
--     page and the routes. Listener: listener.go, listener_linux.go and listener_stub.go. Main:
--     cmd/zdash/main.go, which makes the listener, puts the gate to sleep and serves.
--   * Prelude, Table, Text: helpers, the maps of the refresher as association lists, and what the
--     source calls of `strings` and `strconv`. Json: the JSON string encoder on the error texts;
--     Json/Values, Json/Maps, Json/RoundTrip and Json/Kept: JSON values, and strings, integers, maps
--     and structs as encoding/json reads and writes them.
--
-- Texts are lists of code points. Sizes and times are natural numbers; `uint64` keeps its
-- wrap-around where the code can reach it (the scaling in `parseMemInfo`, the generation of the
-- refresher), and the range errors of `strconv` are written out. A connection is a number. A map of
-- the pools is its entries in the order of their keys, the order in which encoding/json writes them;
-- a later entry of a key replaces an earlier one, and a key names a field up to the case of its
-- letters. Loops are structural recursion over lines, rows, devices and JSON values; the decimal
-- print runs on fuel, and a number more than the number printed is enough, since each round divides
-- by ten.
--
-- Arguments of the definitions, since their code is not in the repository: the subprocesses (their
-- output and error), the syntax of JSON and the decoders and encoders of the other types, floating
-- point (`SysInfo.Floats`), the files and the environment of a host (`SysInfo.Fetch.Host`),
-- `net.FileListener` and `net.Listen`. Not modelled: the timeouts of the HTTP server; logging;
-- embed/index.html, the Nix modules and the build files.
pub mod Prelude
pub mod Text
pub mod Idle
pub mod Table
pub mod Json
pub mod Refresh
pub mod Process
pub mod Arc
pub mod SysInfo
pub mod Smart
pub mod Pools
pub mod Web
pub mod Whole
pub mod Listener
pub mod Produce
pub mod Main
