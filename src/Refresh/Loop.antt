-- ===== src/Refresh/Loop.antt =====
-- `loop` of refresher.go: the refresh loops, each on a stop channel of its own, and `setActive`, which
-- makes the channels and closes them.
pub mod Channels
pub mod Endings
mod Tests
use zdash.Prelude.{
  ℕ, suc, ◌+◌, ◌≡◌, Bool, true, false, not, List, [], ◌∷◌, Option, none, some, ◌==◌, if◌then◌else◌,
  Pick, count,
}

-- Where a loop stands: in `refreshAll`, at the outer `select`, or behind a tick at the inner one.
pub data Place : Type 0 where
  refreshing selecting ticked : Place

-- A call of `loop`, with its parameter `stop`; a channel is its number.
pub record Loop : Type 0 where
  pub stop : ℕ
  pub place : Place

pub record Hub : Type 0 where
  pub active : Bool
  pub stop : Option ℕ  -- `r.stop`
  pub made : ℕ  -- the channels made so far
  pub closed : List ℕ  -- the channel of each `close` so far
  pub loops : List Loop

abbrev pub unstarted : Hub
unstarted = record { active = false; stop = none; made = 0; closed = []; loops = [] }

abbrev pub is_closed : ℕ → List ℕ → Bool
is_closed c closed = not (count c closed == 0)

-- the `select` in front of `close(r.stop)`
unfoldable pub close_once : Option ℕ → List ℕ → List ℕ
close_once none closed = closed
close_once (some c) closed = if is_closed c closed then closed else c ∷ closed

-- `setActive`
unfoldable pub switch : Bool → Hub → Hub
unfolding close_once
switch true h = if h.active then h else record h {
  active = true;
  stop = some h.made;
  made = suc h.made;
  loops = record { stop = h.made; place = refreshing } ∷ h.loops;
}
switch false h = record h { active = false; closed = close_once h.stop h.closed }

-- the inner `select`: the channel is closed, or another round starts
unfoldable pub check_stop : Bool → Loop → List Loop → List Loop
check_stop true l rest = rest
check_stop false l rest = record l { place = refreshing } ∷ rest

pub data Step (h : Hub) : Hub → Type 0 where
  activates : Step h (switch true h)
  deactivates : Step h (switch false h)
  refreshes :
      (l : Loop) {rest : List Loop}
      → Pick l h.loops rest
      → l.place ≡ refreshing
      → Step h (record h { loops = record l { place = selecting } ∷ rest })
  stops :
      (l : Loop) {rest : List Loop}
      → Pick l h.loops rest
      → l.place ≡ selecting
      → is_closed l.stop h.closed ≡ true
      → Step h (record h { loops = rest })
  ticks :
      (l : Loop) {rest : List Loop}
      → Pick l h.loops rest
      → l.place ≡ selecting
      → Step h (record h { loops = record l { place = ticked } ∷ rest })
  checks :
      (l : Loop) {rest : List Loop}
      → Pick l h.loops rest
      → l.place ≡ ticked
      → Step h (record h { loops = check_stop (is_closed l.stop h.closed) l rest })

pub data Reach (h : Hub) : Hub → Type 0 where
  here : Reach h h
  later : {t u : Hub} → Reach h t → Step t u → Reach h u

abbrev pub Reachable : Hub → Type 0
Reachable = Reach unstarted
