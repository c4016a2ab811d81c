-- ===== src/Refresh/Loop/Endings.antt =====
-- The loops of ended sessions.
use zdash.Prelude.{
  ℕ, ◌+◌, ◌≤◌, ◌≡◌, ◌⊎◌, inl, inr, refl, true, List, [], ◌∷◌, ◌==◌, if◌then◌else◌, Pick, head, next,
  ◌*◌, Bool-cases, arith,
}
use zdash.Refresh.Loop.{
  Place, refreshing, selecting, ticked, Loop, Hub, is_closed, close_once, switch, check_stop, Step,
  activates, deactivates, refreshes, stops, ticks, checks, Reach, here, later, Reachable,
}
use zdash.Refresh.Loop.Channels.{loops_on, Inv, Step-Inv, Reachable-Inv}

-- What a loop has left to do once its channel is closed.
abbrev place_left : Place → ℕ
place_left refreshing = 3
place_left selecting = 2
place_left ticked = 1

abbrev left : ℕ → List Loop → ℕ
left c [] = 0
left c (l ∷ ls) = (if l.stop == c then place_left l.place else 0) + left c ls

left-Pick :
    (c : ℕ) {l : Loop} {xs ys : List Loop}
    → Pick l xs ys
    → left c xs ≡ (if l.stop == c then place_left l.place else 0) + left c ys
left-Pick c head = refl
left-Pick c (next p) = omega (arith, left-Pick c p)

place_left-le : (p : Place) → place_left p ≤ 3
place_left-le refreshing = omega arith
place_left-le selecting = omega arith
place_left-le ticked = omega arith

left-le : (c : ℕ) (ls : List Loop) → left c ls ≤ 3 * loops_on c ls
left-le c [] = omega arith
left-le c (l ∷ ls) = ground (arith, left-le c ls, place_left-le l.place)

-- Whether a step is one of the loop on this channel, and whether that starts another round.
abbrev pub moves : {h t : Hub} → ℕ → Step h t → ℕ
moves c (refreshes l p e) = if l.stop == c then 1 else 0
moves c (stops l p e d) = if l.stop == c then 1 else 0
moves c (ticks l p e) = if l.stop == c then 1 else 0
moves c (checks l p e) = if l.stop == c then 1 else 0
moves c _ = 0

abbrev pub starts : {h t : Hub} → ℕ → Step h t → ℕ
starts {h = h} c (checks l p e) =
    if l.stop == c then (if is_closed l.stop h.closed then 0 else 1) else 0
starts c _ = 0

abbrev pub own_steps : {h t : Hub} → ℕ → Reach h t → ℕ
own_steps c here = 0
own_steps c (later r st) = own_steps c r + moves c st

abbrev pub rounds : {h t : Hub} → ℕ → Reach h t → ℕ
rounds c here = 0
rounds c (later r st) = rounds c r + starts c st

abbrev pub CanMove : ℕ → Hub → Type 0
CanMove c h = (t : Hub) × (st : Step h t) × (moves c st ≡ 1)

Step-left :
    {h t : Hub} (st : Step h t) (c : ℕ)
    → Inv h c
    → is_closed c h.closed ≡ true
    → (moves c st + left c t.loops ≤ left c h.loops)
      × (starts c st ≡ 0)
      × (is_closed c t.closed ≡ true)
unfolding switch close_once check_stop
Step-left activates c v d = ground (arith, v)
Step-left deactivates c v d = ground (arith, v)
Step-left (refreshes l p e) c v d = ground (arith, left-Pick c p)
Step-left (stops l p e q) c v d = ground (arith, left-Pick c p)
Step-left (ticks l p e) c v d = ground (arith, left-Pick c p)
Step-left (checks l p e) c v d = ground (arith, left-Pick c p)

Reach-left :
    {h t : Hub} (r : Reach h t) (c : ℕ)
    → Inv h c
    → is_closed c h.closed ≡ true
    → (own_steps c r + left c t.loops ≤ left c h.loops)
      × (rounds c r ≡ 0)
      × (is_closed c t.closed ≡ true)
      × Inv t c
Reach-left here c v d = (omega arith, refl, d, v)
Reach-left (later r st) c v d =
    let (a, b, e, w) = Reach-left r c v d in
    let (a', b', e') = Step-left st c w e in (omega arith, omega arith, e', Step-Inv st c w)

pick_loop :
    (c : ℕ) (ls : List Loop)
    → (loops_on c ls ≡ 0) ⊎ ((l : Loop) × (rest : List Loop) × Pick l ls rest × (l.stop ≡ c))
pick_loop c [] = inl refl
pick_loop c (l ∷ ls) = elim (Bool-cases (l.stop == c)) [
  | inl on ↦ inr (l, ls, head, ground (arith, on))
  | inr off ↦ elim (pick_loop c ls) [
    | inl none_on ↦ inl (ground (arith, off, none_on))
    | inr (m, rest, p, e) ↦ inr (m, l ∷ rest, next p, e)
  ]
]

can_move :
    {t : Hub} (l : Loop) {rest : List Loop} (c : ℕ)
    → Pick l t.loops rest
    → l.stop ≡ c
    → (q : Place) → l.place ≡ q
    → CanMove c t
can_move l c p e refreshing at = (_, refreshes l p at, ground arith)
can_move l c p e selecting at = (_, ticks l p at, ground arith)
can_move l c p e ticked at = (_, checks l p at, ground arith)

-- The loop of an ended session ends. Once its channel is closed, whatever happens then, later sessions
-- included, a loop starts no other round and takes at most three steps, and until it has returned it
-- can take one.
pub ended_loop_returns :
    {h t : Hub} (c : ℕ)
    → Reachable h
    → is_closed c h.closed ≡ true
    → (r : Reach h t)
    → (own_steps c r ≤ 3) × (rounds c r ≡ 0) × ((loops_on c t.loops ≡ 0) ⊎ CanMove c t)
ended_loop_returns {h} {t} c k d r =
    let (a, b, e, w) = Reach-left r c (Reachable-Inv k c) d in
    (
      omega (arith, left-le c h.loops, (Reachable-Inv k c).looped),
      b,
      elim (pick_loop c t.loops) [
        | inl gone ↦ inl gone
        | inr (l, rest, p, s) ↦ inr (can_move l c p s l.place refl)
      ],
    )
