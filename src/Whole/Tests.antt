-- ===== src/Whole/Tests.antt =====
-- The program from its start to its first answer.
use zdash.Prelude.{
  ℕ, ◌-◌, ◌<◌, ◌≡◌, ◌⊎◌, ◌↔◌, refl, true, false, not, [], some, if◌then◌else◌, arith, head,
}
use zdash.Prelude.Int.{pos}
use zdash.Idle.{
  new_idle_gate, exit_on_idle, enter_sleep, conn_add, wake, arm_session_locked, live_insert,
}
use zdash.Idle.Steps.{accept, wakes, inserts}
use zdash.Table.{find, put}
use zdash.Refresh.{RefreshEntry, set_active, get, answer, join, launch, ttl_of, is_open}
use zdash.Web.{route}
use zdash.Whole.{Whole, booted_whole, switches, Reach, here, later}
use zdash.Whole.Sessions.{cache_follows_gate, asleep_holds_nothing, served_request_answered}

abbrev asleep_at_boot : Whole
unfolding new_idle_gate exit_on_idle enter_sleep set_active
asleep_at_boot = booted_whole 4 (pos 100) true

asleep_holds_nothing_example : asleep_at_boot.caching.cache.entries ≡ []
unfolding asleep_at_boot
asleep_holds_nothing_example = asleep_holds_nothing (4, pos 100, true, here) (omega arith) refl refl

abbrev accepted : (w : Whole) × Reach (booted_whole 4 (pos 100) true) w
unfolding asleep_at_boot conn_add
accepted = (_, later here (switches (accept 7 tt)))

abbrev woken : (w : Whole) × Reach (booted_whole 4 (pos 100) true) w
unfolding accepted wake arm_session_locked set_active
woken = (_, later accepted.1 (switches (wakes 7 {rest = []} refl head)))

abbrev served : (w : Whole) × Reach (booted_whole 4 (pos 100) true) w
unfolding woken live_insert
served = (_, later woken.1 (switches (inserts 7 {rest = []} refl head)))

cache_follows_gate_example :
    (served.0.caching.cache.active ≡ not served.0.idle.gate.sleeping)
    × ((served.0.caching.cache.stop ≡ some is_open) ↔ (served.0.idle.gate.sleeping ≡ false))
    × (served.0.caching.loops ≡ (if served.0.idle.gate.sleeping then 0 else 1))
cache_follows_gate_example = cache_follows_gate (4, pos 100, true, served.1)

pools_route : route "GET" "/api/zpool" ≡ some (zdash.Web.api "zpool")
unfolding route
pools_route = refl

served_request_answered_example :
    let r = served.0.caching.cache in
    ((e : RefreshEntry) × (find "zpool" r.entries ≡ some e)
      × (5 - e.fetched < ttl_of r "zpool")
      × (get 5 r "zpool" 0 ≡ (r, answer e.body e.status)))
    ⊎ ((c : ℕ) × (find "zpool" r.inflight ≡ some c) × (get 5 r "zpool" 0 ≡ (r, join c)))
    ⊎ (get 5 r "zpool" 0 ≡ (record r { inflight = put "zpool" 0 r.inflight }, launch 0 r.gen))
unfolding served
served_request_answered_example =
    served_request_answered "GET" "/api/zpool" "zpool" 5 0 (4, pos 100, true, served.1) refl
      (omega arith) pools_route
