-- ===== src/Refresh/Sessions.antt =====
-- What the refresher promises across fetches and sessions.
use Prim.Native.String.{String}
use text.Mathlib.TextEquality.{eq_iff}
use zdash.Prelude.{
  ℕ, ◌+◌, ◌-◌, ◌^◌, ◌≤◌, ◌<◌, ◌≡◌, ◌≢◌, ap, true, false, List, none, some, arith, ◌⊎◌, All-Pick,
  Pick, Bytes,
}
use zdash.Table.{find, put}
use zdash.Refresh.{
  Refresher, RefreshEntry, Start, is_open, is_closed, launch, answer, join, set_active, get, store,
  ttl_of, is_stale, default_producers, err_body, not_found, service_unavailable, refresh_all,
  refresh_tick, zpool_ttl, new_refresher, contains,
}
use zdash.Refresh.System.{
  System, Fetch, flights, deactivate, Reach, Reach-trans, later, deactivates, Reachable,
}
use zdash.Refresh.Invariant.{IsDated, Reachable-Inv, Reachable-Single, Reach-ends}

-- In every reachable state each endpoint has at most one fetch between its start and the deletion
-- of its `inflight` entry.
pub single_flight :
    {s : System} (k : String) → Reachable s → flights k s.fetching + flights k s.stored ≤ 1
single_flight {s} k r = ground (arith, Reachable-Single r k)

-- In every reachable state a `get` that launches a fetch finds none of that endpoint under way.
launch_finds_none :
    {s : System} (k : String) (now call : ℕ) {c g : ℕ}
    → Reachable s
    → (get now s.cache k call).1 ≡ launch c g
    → flights k s.fetching + flights k s.stored ≡ 0
unfolding get
launch_finds_none {s} k now call r e = ground (arith, Reachable-Single r k)

-- In every reachable state one refresh loop runs on an open stop channel while the cache is active,
-- and none while it is not; the channel `r.stop` is open exactly while the cache is active.
one_loop :
    {s : System}
    → Reachable s
    → ((s.cache.active ≡ true) × (s.loops ≡ 1) × (s.cache.stop ≡ some is_open))
      ⊎ ((s.cache.active ≡ false) × (s.loops ≡ 0) × (s.cache.stop ≢ some is_open))
one_loop r = ground (arith, Reachable-Inv r)

-- A fetch that runs when a session ends changes no cache any more: whatever happens after the end,
-- later sessions included, its store leaves the refresher as it is, up to 2^64 session ends.
pub late_store_dropped :
    {s u : System} {f : Fetch} {rest : List Fetch}
    → Reachable s
    → Pick f s.fetching rest
    → Reach (deactivate s (set_active false s.cache)) u
    → u.ends < 2 ^ 64
    → (now : ℕ) (body : Bytes) (status : ℕ) → store now f.key f.gen body status u.cache ≡ u.cache
unfolding store
late_store_dropped {s} {u} r p q bound now body status = ground (
  arith,
  All-Pick (IsDated s.ends) p (Reachable-Inv r).dated,
  Reach-ends q,
  Reachable-Inv (Reach-trans (later r deactivates) q),
)

-- Once a session has ended, and until the next begins, `get` starts no fetch for any endpoint.
pub ended_session_launches_none :
    {s : System}
    → Reachable s
    → s.cache.active ≡ false
    → s.cache.stop ≢ none
    → (now call c g : ℕ) (key : String) → (get now s.cache key call).1 ≢ launch c g
unfolding get
ended_session_launches_none r inactive made now call c g key e = ground (arith, Reachable-Inv r)

-- A tick of the refresh loop, five seconds after a fetch of the pools, leaves them out; a request
-- six seconds after it, or any time later, launches a fetch itself, if none is in flight and
-- the session runs: between two ticks the loop is not the only fetcher.
pub request_fetches_between_ticks :
    (r : Refresher) (e : RefreshEntry) (now call : ℕ)
    → r.ttls ≡ new_refresher.ttls
    → r.producers ≡ new_refresher.producers
    → find "zpool" r.entries ≡ some e
    → find "zpool" r.inflight ≡ none
    → r.stop ≡ some is_open
    → e.fetched + zpool_ttl ≤ now
    → (contains "zpool" (refresh_all (e.fetched + refresh_tick) r) ≡ false)
      × ((get now r "zpool" call).1 ≡ launch call r.gen)
unfolding get refresh_all find contains ttl_of
request_fetches_between_ticks r e now call ts ps he hi hs h = ground arith

-- What `get` comes to, branch by branch: the cached answer while it is younger than the endpoint's
-- lifetime; behind that the fetch in flight; behind that the refusal of an unknown endpoint; behind
-- that the refusal of an ended session; and only then a new fetch, which is entered in `inflight`
-- and is given the generation of the session.
pub get_branches :
    (r : Refresher) (now call : ℕ) (key : String)
    → ((e : RefreshEntry) × (find key r.entries ≡ some e)
        × (now - e.fetched < ttl_of r key)
        × (get now r key call ≡ (r, answer e.body e.status)))
      ⊎ ((is_stale now (ttl_of r key) (find key r.entries) ≡ true)
          × (((c : ℕ) × (find key r.inflight ≡ some c) × (get now r key call ≡ (r, join c)))
              ⊎ ((find key r.inflight ≡ none)
                  × (contains key r.producers ≡ false)
                  × (get now r key call ≡ (r, answer (err_body "unknown endpoint") not_found)))
              ⊎ ((find key r.inflight ≡ none)
                  × (contains key r.producers ≡ true)
                  × (r.stop ≡ some is_closed)
                  × (get now r key call
                      ≡ (r, answer (err_body "session ended") service_unavailable)))
              ⊎ ((find key r.inflight ≡ none)
                  × (contains key r.producers ≡ true)
                  × (r.stop ≢ some is_closed)
                  × (get now r key call
                      ≡ (record r { inflight = put key call r.inflight }, launch call r.gen)))))
unfolding get is_stale
get_branches r now call key = ground arith

refresh_all_iff :
    (r : Refresher) (now : ℕ) (key : String)
    → r.ttls ≡ new_refresher.ttls
    → contains key default_producers ≡ true
    → contains key (refresh_all now r) ≡ is_stale now (ttl_of r key) (find key r.entries)
unfolding refresh_all find contains ttl_of
refresh_all_iff r now key ts h =
    ground (arith, eq_iff "zpool" key, eq_iff "arc" key, eq_iff "sysinfo" key, eq_iff "smart" key)

-- `get` goes for a fetch: it starts one, or joins the one in flight.
abbrev pub Fetches : Start → Type 0
Fetches (launch call gen) = Unit
Fetches (join call) = Unit
Fetches (answer body status) = ⊥

-- With the default lifetimes and producers, and while no session has ended, the background refresh
-- picks an endpoint exactly where `get` would start a fetch for it or join one: an endpoint that it
-- leaves out is one for which `get`, at that time, serves the cached answer.
pub refresh_picks_unserved :
    (r : Refresher) (now call : ℕ) (key : String)
    → r.ttls ≡ new_refresher.ttls
    → r.producers ≡ default_producers
    → contains key default_producers ≡ true
    → r.stop ≢ some is_closed
    → ((contains key (refresh_all now r) ≡ true) × Fetches (get now r key call).1)
      ⊎ ((contains key (refresh_all now r) ≡ false)
          × ((e : RefreshEntry) × (find key r.entries ≡ some e)
              × (get now r key call ≡ (r, answer e.body e.status))))
unfolding get is_stale
refresh_picks_unserved r now call key ts ps known running =
    ground (arith, refresh_all_iff r now key ts known, ap (contains key) ps)
