-- ===== src/Refresh/Loop/Tests.antt =====
-- A session that begins, whose loop is through its first round, and that ends.
use zdash.Prelude.{◌≤◌, ◌≡◌, ◌⊎◌, refl, true, false, [], ◌∷◌, some, Pick, head, count}
use zdash.Refresh.Loop.{
  refreshing, selecting, Loop, Hub, unstarted, is_closed, close_once, switch, activates,
  deactivates, refreshes, Reach, here, later, Reachable,
}
use zdash.Refresh.Loop.Channels.{loops_on, channel_cases}
use zdash.Refresh.Loop.Endings.{own_steps, rounds, CanMove, ended_loop_returns}

abbrev first_loop : Loop
first_loop = record { stop = 0; place = refreshing }

abbrev in_session : Hub
in_session = switch true unstarted

in_session-Reachable : Reachable in_session
in_session-Reachable = later here activates

abbrev ended : Hub
ended = switch false in_session

ended-Reachable : Reachable ended
ended-Reachable = later in_session-Reachable deactivates

its_loop : Pick first_loop ended.loops []
unfolding switch
its_loop = head

zero_closed : is_closed 0 ended.closed ≡ true
unfolding switch close_once
zero_closed = refl

-- The loop leaves its round behind the end of the session.
abbrev selected : Hub
selected = record ended { loops = record { stop = 0; place = selecting } ∷ [] }

late_end : Reach ended selected
late_end = later here (refreshes first_loop its_loop refl)

channel_cases_example :
    (count 0 ended.closed ≤ 1)
    × (((ended.active ≡ true)
          × (ended.stop ≡ some 0)
          × (is_closed 0 ended.closed ≡ false)
          × (loops_on 0 ended.loops ≡ 1))
        ⊎ ((is_closed 0 ended.closed ≡ true) × (loops_on 0 ended.loops ≤ 1))
        ⊎ ((ended.made ≤ 0) × (loops_on 0 ended.loops ≡ 0)))
channel_cases_example = channel_cases ended-Reachable 0

ended_loop_returns_example :
    (own_steps 0 late_end ≤ 3)
    × (rounds 0 late_end ≡ 0)
    × ((loops_on 0 selected.loops ≡ 0) ⊎ CanMove 0 selected)
ended_loop_returns_example = ended_loop_returns 0 ended-Reachable zero_closed late_end
