-- ===== src/Process/Tests.antt =====
-- A process at its first park, and the theorem at it.
use zdash.Prelude.{◌≡◌, ◌⊎◌, refl, false, not, if◌then◌else◌}
use zdash.Prelude.Int.{pos, negsuc}
use zdash.Idle.{sleep_fn, new_idle_gate, enter_sleep}
use zdash.Idle.System.{System, booted}
use zdash.Idle.Steps.{here}
use zdash.Refresh.{new_refresher}
use zdash.Process.{Process, run_effect}
use zdash.Process.Profile.{boots, calls, process_follows_gate}

abbrev fresh : Process
fresh = record {
  procs = 4;
  gc_percent = pos 100;
  held_at_free = 7;
  cache = new_refresher;
  gone = false;
}

abbrev parked_process : Process
parked_process = run_effect 4 (pos 100) sleep_fn fresh

abbrev boot : System
boot = booted 4 (pos 100) false

process_follows_gate_example :
    (parked_process.cache.active ≡ not boot.gate.sleeping)
    × (parked_process.procs ≡ (if boot.gate.sleeping then 1 else 4))
    × (parked_process.gc_percent ≡ (if boot.gate.sleeping then negsuc 0 else pos 100))
    × ((boot.gate.sleeping ≡ false) ⊎ (parked_process.held_at_free ≡ 0))
unfolding new_idle_gate enter_sleep
process_follows_gate_example =
    process_follows_gate {s = boot} (4, pos 100, false, here) (λ e. cc)
      (calls sleep_fn (boots fresh refl))
