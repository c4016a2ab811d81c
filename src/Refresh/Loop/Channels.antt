-- ===== src/Refresh/Loop/Channels.antt =====
-- The stop channels of the refresh loops.
use zdash.Prelude.{
  ℕ, ◌+◌, ◌≤◌, ◌<◌, ◌≡◌, ◌⊎◌, refl, Bool, true, false, List, [], ◌∷◌, Option, none, some, ◌==◌,
  if◌then◌else◌, Pick, head, next, count, arith,
}
use zdash.Refresh.Loop.{
  Loop, Hub, is_closed, close_once, switch, check_stop, Step, activates, deactivates, refreshes,
  stops, ticks, checks, here, later, Reachable,
}

-- the loops on a channel
abbrev pub loops_on : ℕ → List Loop → ℕ
loops_on c [] = 0
loops_on c (l ∷ ls) = (if l.stop == c then 1 else 0) + loops_on c ls

pub loops_on-Pick :
    (c : ℕ) {l : Loop} {xs ys : List Loop}
    → Pick l xs ys
    → loops_on c xs ≡ (if l.stop == c then 1 else 0) + loops_on c ys
loops_on-Pick c head = refl
loops_on-Pick c (next p) = omega (arith, loops_on-Pick c p)

abbrev pub is_stop : ℕ → Option ℕ → Bool
is_stop c none = false
is_stop c (some d) = d == c

-- What holds of each channel.
pub record Inv (h : Hub) (c : ℕ) : Type 0 where
  pub once : count c h.closed ≤ 1
  pub looped : loops_on c h.loops ≤ 1
  pub unmade :
      h.made ≤ c → (count c h.closed ≡ 0) × (loops_on c h.loops ≡ 0) × (is_stop c h.stop ≡ false)
  pub current :
      h.active ≡ true → is_stop c h.stop ≡ true → (count c h.closed ≡ 0) × (loops_on c h.loops ≡ 1)
  pub past : c < h.made → (h.active ≡ false) ⊎ (is_stop c h.stop ≡ false) → count c h.closed ≡ 1

pub Step-Inv : {h h' : Hub} → Step h h' → (c : ℕ) → Inv h c → Inv h' c
unfolding switch close_once check_stop
Step-Inv activates c v = ground (arith, v)
Step-Inv deactivates c v = ground (arith, v)
Step-Inv (refreshes l p e) c v = ground (arith, v, loops_on-Pick c p)
Step-Inv (stops l p e d) c v = ground (arith, v, loops_on-Pick c p)
Step-Inv (ticks l p e) c v = ground (arith, v, loops_on-Pick c p)
Step-Inv (checks l p e) c v = ground (arith, v, loops_on-Pick c p)

pub Reachable-Inv : {h : Hub} → Reachable h → (c : ℕ) → Inv h c
Reachable-Inv here c = ground arith
Reachable-Inv (later r st) c = Step-Inv st c (Reachable-Inv r c)

-- In every reachable state each stop channel was closed at most once, so that `close` never panics,
-- and a channel is either that of the session: `r.stop`, open, with one loop on it; or of a session
-- that has ended: closed, with the loop gone or still to end; or not made yet.
pub channel_cases :
    {h : Hub}
    → Reachable h
    → (c : ℕ)
    → (count c h.closed ≤ 1)
      × (((h.active ≡ true)
            × (h.stop ≡ some c)
            × (is_closed c h.closed ≡ false)
            × (loops_on c h.loops ≡ 1))
          ⊎ ((is_closed c h.closed ≡ true) × (loops_on c h.loops ≤ 1))
          ⊎ ((h.made ≤ c) × (loops_on c h.loops ≡ 0)))
channel_cases r c = ground (arith, Reachable-Inv r c)
