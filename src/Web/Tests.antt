-- ===== src/Web/Tests.antt =====
-- The answers of a session, and the index page.
use zdash.Prelude.{[], ◌≡◌, ◌≢◌, refl, inl, arith, head, ◌<◌, ◌-◌, codes}
use zdash.Table.{find, put, delete}
use zdash.Refresh.{set_active, get, store, contains, ttl_of}
use zdash.Refresh.System.{System, Fetch, activates, gets, elapses, Reach, here, later, Reachable}
use zdash.Web.{replied, json_response, serve_refresh}
use zdash.Web.{html_response, http_error, handle_index}
use zdash.Web.Index.{placeholder, handle_index_cases}
use zdash.Text.{cut}
use zdash.Prelude.{some, none, Bytes, ◌⊎◌, ◌++◌}
use zdash.Web.Answers.{behind_store, stored_result_served}

-- A session that fetches the ARC statistics.
abbrev fetching : (s : System) × Reachable s
unfolding set_active get find put delete contains
fetching = (_, later (later here activates) (gets "arc"))

abbrev arc_fetch : Fetch
arc_fetch = record { key = "arc"; gen = 0; born = 0 }

abbrev fetched : System
unfolding fetching
fetched = behind_store fetching.0 arc_fetch (codes "{}") 200 []

-- Another endpoint is asked for, and three units pass.
abbrev later_on : (s : System) × Reach fetched s
unfolding fetched get store find
later_on = (_, later (later here (gets "zpool")) (elapses 3))

still_fresh : later_on.0.now - fetching.0.now < ttl_of later_on.0.cache "arc"
unfolding later_on ttl_of find
still_fresh = omega arith

stored_result_served_example :
    serve_refresh "GET" later_on.0.now later_on.0.cache "arc" 7
    ≡ (later_on.0.cache, replied (json_response (codes "{}") 200))
unfolding later_on
stored_result_served_example =
    stored_result_served fetching.0 {rest = []} arc_fetch "GET" (codes "{}") 200 7 later_on.1 head
      refl (inl refl) ((tt, tt), tt) still_fresh

abbrev small_page : Bytes
small_page = codes "<b>__ZDASH_VERSION__</b>"

versioned : handle_index (some small_page) (codes "1.2") ≡ html_response (codes "<b>1.2</b>")
unfolding handle_index cut zdash.Text.cut_prefix
versioned = refl

handle_index_cases_example :
    (((some small_page ≡ none) ⊎ (some small_page ≡ some []))
      × (handle_index (some small_page) (codes "1.2")
          ≡ http_error "Internal Server Error: missing embedded resources" 500))
    ⊎ ((page : Bytes) × (some small_page ≡ some page)
        × (page ≢ [])
        × (((before after : Bytes) × (page ≡ before ++ (placeholder ++ after))
              × (handle_index (some small_page) (codes "1.2")
                  ≡ html_response (before ++ (codes "1.2" ++ after))))
            ⊎ (((p q : Bytes) → page ≢ p ++ (placeholder ++ q))
                × (handle_index (some small_page) (codes "1.2") ≡ html_response page))))
handle_index_cases_example = handle_index_cases (some small_page) (codes "1.2")
