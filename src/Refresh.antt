-- ===== src/Refresh.antt =====
-- refresher.go: the session-scoped cache of the endpoints' answers. A method that waits is split at
-- its waits; each function here is what a call does in one hold of `r.mu`. Times are nanoseconds.
pub mod System
pub mod Invariant
pub mod Sessions
pub mod Memory
pub mod Desk
pub mod Loop
mod Tests
use Prim.Native.String.{String}
use text.Mathlib.Text.{◌==◌ as str_eq}
use zdash.Prelude.{
  ℕ, ◌+◌, ◌-◌, ◌*◌, ◌%◌, ◌^◌, Bool, true, false, not, ◌||◌, List, [], ◌∷◌, ◌++◌, Option, none, some,
  ltb, leb, ◌==◌, if◌then◌else◌, Bytes, codes,
}
use zdash.Table.{Table, find, put, delete}
use zdash.Json.{quoted}

pub record RefreshEntry : Type 0 where
  pub body : Bytes
  pub status : ℕ
  pub fetched : ℕ

-- `r.stop` once it is made: a session that runs, or one that has ended.
pub data StopChan : Type 0 where
  is_open is_closed : StopChan

-- A `*fetchCall` is its number; `producers` are the keys that have one.
pub record Refresher : Type 0 where
  pub ttls : Table ℕ
  pub producers : List String
  pub tick : ℕ
  pub entries : Table RefreshEntry
  pub inflight : Table ℕ
  pub active : Bool
  pub gen : ℕ
  pub stop : Option StopChan

abbrev pub second : ℕ
second = 10 ^ 9

abbrev pub zpool_ttl : ℕ
zpool_ttl = 6 * second

abbrev pub arc_ttl : ℕ
arc_ttl = 6 * second

abbrev pub sysinfo_ttl : ℕ
sysinfo_ttl = 6 * second

abbrev pub smart_ttl : ℕ
smart_ttl = 60 * second

abbrev pub refresh_tick : ℕ
refresh_tick = 5 * second

-- the keys of `defaultProducers`
abbrev pub default_producers : List String
default_producers = "zpool" ∷ "arc" ∷ "sysinfo" ∷ "smart" ∷ []

-- `newRefresher`
abbrev pub new_refresher : Refresher
new_refresher = record {
  ttls =
      ("zpool", zpool_ttl)
      ∷ ("arc", arc_ttl)
      ∷ ("sysinfo", sysinfo_ttl)
      ∷ ("smart", smart_ttl)
      ∷ [];
  producers = default_producers;
  tick = refresh_tick;
  entries = [];
  inflight = [];
  active = false;
  gen = 0;
  stop = none;
}

close_stop : Option StopChan → Option StopChan
close_stop none = none
close_stop (some _) = some is_closed

-- `setActive`; the flag says that a refresh loop was started.
unfoldable pub set_active : Bool → Refresher → Refresher × Bool
unfolding close_stop
set_active true r =
    if r.active then (r, false) else (record r { active = true; stop = some is_open }, true)
set_active false r = (
  record r { active = false; gen = (r.gen + 1) % 2 ^ 64; stop = close_stop r.stop; entries = [] },
  false,
)

or_zero : Option ℕ → ℕ
or_zero none = 0
or_zero (some n) = n

-- `r.ttls[key]`, which is 0 for a key that is not there
unfoldable pub ttl_of : Refresher → String → ℕ
unfolding or_zero
ttl_of r key = or_zero (find key r.ttls)

-- `e == nil || time.Since(e.fetched) >= ttl`
unfoldable pub is_stale : ℕ → ℕ → Option RefreshEntry → Bool
is_stale now ttl none = true
is_stale now ttl (some e) = leb ttl (now - e.fetched)

select_stale : ℕ → Refresher → Table ℕ → List String
select_stale now r [] = []
select_stale now r ((key, ttl) ∷ rest) =
    let later = select_stale now r rest in
    if is_stale now ttl (find key r.entries) then key ∷ later else later

-- the keys that `refreshAll` fetches
unfoldable pub refresh_all : ℕ → Refresher → List String
unfolding select_stale is_stale
refresh_all now r = select_stale now r r.ttls

-- What the first hold of the lock in `get` comes to.
pub data Start : Type 0 where
  answer : Bytes → ℕ → Start
  join : (call : ℕ) → Start
  launch : (call : ℕ) → (gen : ℕ) → Start

-- `errBody`
unfoldable pub err_body : String → Bytes
unfolding quoted
err_body msg = codes "{\"error\":" ++ (quoted (codes msg) ++ codes "}")

abbrev status_ok : ℕ
status_ok = 200

abbrev pub not_found : ℕ
not_found = 404

abbrev pub service_unavailable : ℕ
service_unavailable = 503

unfoldable pub contains : String → List String → Bool
contains key [] = false
contains key (k ∷ ks) = str_eq k key || contains key ks

fetch_new : Refresher → String → ℕ → Refresher × Start
fetch_new r key call = (record r { inflight = put key call r.inflight }, launch call r.gen)

-- the session check, and the start of a fetch as call number `call`
get_uncached : Option StopChan → Refresher → String → ℕ → Refresher × Start
unfolding fetch_new
get_uncached (some is_closed) r key call =
    (r, answer (err_body "session ended") service_unavailable)
get_uncached (some is_open) r key call = fetch_new r key call
get_uncached none r key call = fetch_new r key call

get_producer : Bool → Refresher → String → ℕ → Refresher × Start
unfolding get_uncached
get_producer true r key call = get_uncached r.stop r key call
get_producer false r key call = (r, answer (err_body "unknown endpoint") not_found)

get_stale : Option ℕ → Refresher → String → ℕ → Refresher × Start
unfolding get_producer contains
get_stale (some c) r key call = (r, join c)
get_stale none r key call = get_producer (contains key r.producers) r key call

get_entry : Option RefreshEntry → ℕ → Refresher → String → ℕ → Refresher × Start
unfolding get_stale
get_entry (some e) now r key call =
    if ltb (now - e.fetched) (ttl_of r key)
    then (r, answer e.body e.status)
    else get_stale (find key r.inflight) r key call
get_entry none now r key call = get_stale (find key r.inflight) r key call

-- `get`, up to its wait
unfoldable pub get : ℕ → Refresher → String → ℕ → Refresher × Start
unfolding get_entry
get now r key call = get_entry (find key r.entries) now r key call

-- The fetch stores its result, if its session is still the one that started it.
unfoldable pub store : ℕ → String → ℕ → Bytes → ℕ → Refresher → Refresher
store now key gen body status r =
    if gen == r.gen
    then record r {
      entries = put key (record { body = body; status = status; fetched = now }) r.entries;
    }
    else r

-- the deferred `delete(r.inflight, key)`
unfoldable pub fetch_done : String → Refresher → Refresher
fetch_done key r = record r { inflight = delete key r.inflight }

or_timeout : Option RefreshEntry → Bytes × ℕ
or_timeout (some e) = (e.body, e.status)
or_timeout none = (err_body "timed out waiting for background refresh", service_unavailable)

-- `wait`: either the call's result or, if the context ends first, the newest snapshot
unfoldable pub wait : Option (Bytes × ℕ) → String → Refresher → Bytes × ℕ
unfolding or_timeout
wait (some result) key r = result
wait none key r = or_timeout (find key r.entries)

-- `flush`
unfoldable pub flush : Refresher → Refresher
flush r = record r { entries = [] }
