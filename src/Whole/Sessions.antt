-- ===== src/Whole/Sessions.antt =====
-- What the gate and the refresher promise together, to a client and to the host.
use Prim.Native.String.{String}
use text.Mathlib.TextEquality.{eq_iff}
use zdash.Prelude.{
  ℕ, ◌-◌, ◌<◌, ◌^◌, ◌≡◌, ◌⊎◌, ◌↔◌, inl, inr, ap, ◌∙◌, true, false, not, [], some, if◌then◌else◌,
  length, arith, Option-cases,
}
use zdash.Idle.Invariant as IdleInvariant
use zdash.Idle.Safety.{connected_awake}
use zdash.Table.{find, put}
use zdash.Refresh.{
  RefreshEntry, get, answer, join, launch, ttl_of, contains, default_producers, is_open,
}
use zdash.Refresh.Sessions.{get_branches}
use zdash.Refresh.Memory.{ended_session_empty}
use zdash.Refresh.Invariant as CacheInvariant
use zdash.Web.{route, api}
use zdash.Whole.{Whole, Reachable}
use zdash.Whole.Linked.{Reachable-Parts, Reachable-Linked}

-- In every reachable state of the whole program the refresher is active exactly while the gate is
-- awake, and its stop channel is open exactly then. Awake one refresh loop has that channel; asleep
-- no loop is left whose channel is open.
pub cache_follows_gate :
    {w : Whole}
    → Reachable w
    → (w.caching.cache.active ≡ not w.idle.gate.sleeping)
      × ((w.caching.cache.stop ≡ some is_open) ↔ (w.idle.gate.sleeping ≡ false))
      × (w.caching.loops ≡ (if w.idle.gate.sleeping then 0 else 1))
cache_follows_gate r =
    ground (arith, Reachable-Linked r, CacheInvariant.Reachable-Inv (Reachable-Parts r).cache)

-- Asleep, with no hook that still waits for `wake`, the program holds no answers: no endpoint is
-- cached in any reachable state up to 2^64 session ends, whatever fetches still run or have stored.
pub asleep_holds_nothing :
    {w : Whole}
    → Reachable w
    → w.caching.ends < 2 ^ 64
    → w.idle.gate.sleeping ≡ true
    → w.idle.waking ≡ []
    → w.caching.cache.entries ≡ []
asleep_holds_nothing {w} r b asleep quiet = elim (Option-cases w.caching.cache.stop) [
  | inl unmade ↦ ground (arith, (Reachable-Linked r).unstarted unmade)
  | inr (c, made) ↦
      ended_session_empty (Reachable-Parts r).cache b (ground (arith, Reachable-Linked r)) λ e. cc
]

route_known :
    (method path key : String)
    → route method path ≡ some (api key)
    → contains key default_producers ≡ true
unfolding route contains
route_known method path key e =
    ground (arith, eq_iff "zpool" key, eq_iff "arc" key, eq_iff "sysinfo" key, eq_iff "smart" key)

-- A request that reaches an API handler on a served connection is never refused, in any reachable
-- state in which no hook still waits for `wake`: it is given a cached answer that is younger than
-- the endpoint's lifetime, or joins the fetch in flight, or starts one.
pub served_request_answered :
    {w : Whole} (method path key : String) (now call : ℕ)
    → Reachable w
    → w.idle.waking ≡ []
    → 0 < length w.idle.serving
    → route method path ≡ some (api key)
    → let r = w.caching.cache in
      ((e : RefreshEntry) × (find key r.entries ≡ some e)
        × (now - e.fetched < ttl_of r key)
        × (get now r key call ≡ (r, answer e.body e.status)))
      ⊎ ((c : ℕ) × (find key r.inflight ≡ some c) × (get now r key call ≡ (r, join c)))
      ⊎ (get now r key call ≡ (record r { inflight = put key call r.inflight }, launch call r.gen))
served_request_answered {w} method path key now call r quiet served routed =
    let cache = w.caching.cache in
    let l = Reachable-Linked r in
    let gate = (Reachable-Parts r).gate in
    let awake : w.idle.gate.sleeping ≡ false =
      connected_awake gate quiet (omega (arith, (IdleInvariant.Reachable-Inv gate).counted)) in
    let active : cache.active ≡ true = l.follows ∙ ap not awake in
    ground (
      arith,
      get_branches cache now call key,
      (CacheInvariant.Reachable-Inv (Reachable-Parts r).cache).active_open active,
      ap (contains key) l.known ∙ route_known method path key routed,
    )
