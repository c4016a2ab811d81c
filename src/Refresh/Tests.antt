-- ===== src/Refresh/Tests.antt =====
-- Runs of the refresher, and the theorems at them.
use zdash.Prelude.{
  ◌+◌, ◌*◌, ◌≤◌, ◌≡◌, ◌≢◌, ◌⊎◌, refl, true, false, [], ◌∷◌, some, codes, arith, head,
}
use zdash.Table.{find, put, delete}
use zdash.Refresh.{
  Refresher, RefreshEntry, is_open, answer, join, launch, new_refresher, set_active, get, store,
  refresh_all, refresh_tick, second, contains, err_body,
}
use zdash.Refresh.System.{
  System, Fetch, flights, activates, gets, deactivates, here, later, Reachable,
}
use zdash.Refresh.System.{stores}
use zdash.Refresh.Sessions.{
  single_flight, late_store_dropped, ended_session_launches_none, request_fetches_between_ticks,
  Fetches, refresh_picks_unserved,
}

error_body : err_body "unknown endpoint" ≡ codes "{\"error\":\"unknown endpoint\"}"
unfolding err_body
error_body = refl

-- A session that has begun to fetch the pools.
abbrev awake : (s : System) × Reachable s
unfolding set_active
awake = (_, later here activates)

abbrev fetching : (s : System) × Reachable s
unfolding awake get find put delete contains
fetching = (_, later awake.1 (gets "zpool"))

abbrev pools_fetch : Fetch
pools_fetch = record { key = "zpool"; gen = 0; born = 0 }

second_request_joins : (get 5 fetching.0.cache "zpool" 1).1 ≡ join 0
unfolding fetching get find
second_request_joins = refl

single_flight_example : flights "zpool" fetching.0.fetching + flights "zpool" fetching.0.stored ≤ 1
single_flight_example = single_flight "zpool" fetching.1

-- The session ends under the fetch.
abbrev ended : (s : System) × Reachable s
unfolding fetching set_active
ended = (_, later fetching.1 deactivates)

late_store_dropped_example : store 9 "zpool" 0 (codes "{}") 200 ended.0.cache ≡ ended.0.cache
unfolding ended
late_store_dropped_example =
    late_store_dropped {f = pools_fetch} {rest = []} fetching.1 head here (omega arith) 9
      (codes "{}") 200

ended_session_launches_none_example : (get 9 ended.0.cache "arc" 1).1 ≢ launch 1 1
unfolding ended
ended_session_launches_none_example = ended_session_launches_none ended.1 refl (cc) 9 1 1 1 "arc"

abbrev pools_entry : RefreshEntry
pools_entry = record { body = codes "{}"; status = 200; fetched = 0 }

abbrev warm : Refresher
warm = record new_refresher {
  active = true;
  stop = some is_open;
  entries = ("zpool", pools_entry) ∷ [];
}

request_fetches_between_ticks_example :
    (contains "zpool" (refresh_all refresh_tick warm) ≡ false)
    × ((get (7 * second) warm "zpool" 3).1 ≡ launch 3 0)
unfolding find
request_fetches_between_ticks_example =
    request_fetches_between_ticks warm pools_entry (7 * second) 3 refl refl refl refl refl
      (omega arith)

refresh_picks_unserved_example :
    ((contains "arc" (refresh_all 5 warm) ≡ true) × Fetches (get 5 warm "arc" 1).1)
    ⊎ ((contains "arc" (refresh_all 5 warm) ≡ false)
        × ((e : RefreshEntry) × (find "arc" warm.entries ≡ some e)
            × (get 5 warm "arc" 1 ≡ (warm, answer e.body e.status))))
unfolding contains
refresh_picks_unserved_example = refresh_picks_unserved warm 5 1 "arc" refl refl refl (λ e. cc)

-- The fetch of the pools stores its result behind the end of its session.
abbrev stored_late : (s : System) × Reachable s
unfolding ended store
stored_late = (_, later ended.1 (stores pools_fetch (codes "{}") 200 head))
