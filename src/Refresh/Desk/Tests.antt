-- ===== src/Refresh/Desk/Tests.antt =====
-- Two callers share one fetch of the pools.
use zdash.Prelude.{◌≡◌, refl, [], ◌∷◌, codes, head, All, length}
use zdash.Table.{find, put, delete}
use zdash.Refresh.{set_active, get, store, fetch_done, wait, contains}
use zdash.Refresh.Desk.{
  FetchCall, Waiter, Desk, with_result, asks, returns, deletes, closes, replies, gives_up,
  activates, deactivates, here, later, Reachable,
}
use zdash.Refresh.Desk.Invariant.{IsHonest}
use zdash.Refresh.Desk.Provenance.{answers-IsHonest}
use zdash.Refresh.Desk.Service.{CanServe, waiter_served}

abbrev in_session : (s : Desk) × Reachable s
unfolding set_active
in_session = (_, later here activates)

abbrev asked : (s : Desk) × Reachable s
unfolding in_session get find put delete contains
asked = (_, later in_session.1 (asks "zpool"))

abbrev shared : (s : Desk) × Reachable s
unfolding asked get find put delete contains
shared = (_, later asked.1 (asks "zpool"))

abbrev caller : Waiter
caller = record { key = "zpool"; call = 0 }

both_wait : shared.0.waiting ≡ caller ∷ caller ∷ []
unfolding shared
both_wait = refl

waiter_served_example : CanServe shared.0 caller (caller ∷ [])
unfolding shared
waiter_served_example = waiter_served {rest = caller ∷ []} caller shared.1 head

abbrev pools_call : FetchCall
pools_call = record { key = "zpool"; call = 0; gen = 0; body = []; status = 0 }

abbrev pools_result : FetchCall
pools_result = with_result pools_call (codes "{}") 200

abbrev returned : (s : Desk) × Reachable s
unfolding shared store
returned = (_, later shared.1 (returns pools_call (codes "{}") 200 head))

abbrev done : (s : Desk) × Reachable s
unfolding returned fetch_done
done = (_, later (later returned.1 (deletes pools_result head)) (closes pools_result head))

-- One caller gets the result; the session ends, and the other gives up.
abbrev replied : (s : Desk) × Reachable s
unfolding done wait
replied = (_, later done.1 (replies caller pools_result {rest = caller ∷ []} head head refl))

abbrev gone : (s : Desk) × Reachable s
unfolding replied wait set_active find
gone = (_, later (later replied.1 deactivates) (gives_up caller {rest = []} head))

two_answers : length gone.0.answered ≡ 2
unfolding gone
two_answers = refl

answers-IsHonest_example : All (IsHonest gone.0.produced) gone.0.answered
answers-IsHonest_example = answers-IsHonest gone.1
