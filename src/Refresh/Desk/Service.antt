-- ===== src/Refresh/Desk/Service.antt =====
-- Every caller can be served by the call that it waits on.
use zdash.Prelude.{
  ℕ, ◌<◌, ◌≡◌, ap, ◌⊎◌, inl, inr, refl, ◌∙◌, List, [], ◌∷◌, ◌==◌, Pick, head, next, All-Pick, arith,
  Bool-cases,
}
use zdash.Refresh.{wait}
use zdash.Refresh.Desk.{
  replies, FetchCall, Waiter, Answer, Desk, with_result, Step, returns, deletes, closes, Reachable,
}
use zdash.Refresh.Desk.Invariant.{Among, IsReturned, Awaits, Inv}
use zdash.Refresh.Desk.Moves.{Step-Inv}
use zdash.Refresh.Desk.Provenance.{Reachable-Inv}
use zdash.Refresh.Desk.Waiters.{numbered, under_way, Reachable-Backed}

-- Steps of the goroutine of one call, and of nothing else.
abbrev pub IsOfCall : ℕ → {s t : Desk} → Step s t → Type 0
IsOfCall c (returns f body status p) = f.call ≡ c
IsOfCall c (deletes f p) = f.call ≡ c
IsOfCall c (closes f p) = f.call ≡ c
IsOfCall c _ = ⊥

pub data Carries (c : ℕ) : Desk → Desk → Type 0 where
  over : {s : Desk} → Carries c s s
  first : {s t u : Desk} (st : Step s t) → IsOfCall c st → Carries c t u → Carries c s u

-- The goroutine of the caller's call leads to a state in which that call is closed and this caller
-- still waits; the next step is its reply, which answers it and nobody else, with what a producer
-- of the caller's endpoint returned.
abbrev pub CanServe : Desk → Waiter → List Waiter → Type 0
CanServe s w rest =
    (a : Answer) × (f : FetchCall) × (others : List FetchCall) × (t u : Desk) × Carries w.call s t
    × Pick w t.waiting rest
    × Pick f t.closed others
    × (f.call ≡ w.call)
    × Step t u
    × (u.waiting ≡ rest)
    × (u.answered ≡ a ∷ s.answered)
    × (a ≡ record { key = w.key; body = f.body; status = f.status })
    × Among a t.produced

pick_numbered :
    (c : ℕ) (l : List FetchCall)
    → 0 < numbered c l
    → (f : FetchCall) × (rest : List FetchCall) × Pick f l rest × (f.call ≡ c)
pick_numbered c [] h = absurd (omega arith)
pick_numbered c (f ∷ l) h = elim (Bool-cases (f.call == c)) [
  | inl same ↦ (f, l, head, ground arith)
  | inr other ↦ let (g, rest, p, e) = pick_numbered c l (ground arith) in (g, f ∷ rest, next p, e)
]

-- A step of the call, in front.
CanServe-Step :
    (w : Waiter) {rest : List Waiter} {s t : Desk} (st : Step s t)
    → IsOfCall w.call st
    → t.answered ≡ s.answered
    → CanServe t w rest
    → CanServe s w rest
CanServe-Step w st own e (a, f, others, t, u, r, p, q, same, last, left, given, is, among) =
    (a, f, others, t, u, first st own r, p, q, same, last, left, given ∙ ap (◌∷◌ a) e, is, among)

module _ (w : Waiter) {rest : List Waiter} where
  serve_closed :
      (s : Desk) (f : FetchCall) {others : List FetchCall}
      → Inv s
      → Pick w s.waiting rest
      → Pick f s.closed others
      → f.call ≡ w.call
      → CanServe s w rest
  unfolding wait
  serve_closed s f v p q e =
      let (key, among) = (All-Pick (IsReturned s.launched s.produced) q v.closing).0 in
      let mine = (All-Pick (Awaits s.launched) p v.waiters).0 in
      let same : f.key ≡ w.key = cc (key, mine, e) in
      (_, f, _, s, _, over, p, q, e, replies w f p q e, refl, refl, refl, rw same at among)

  serve_deleted :
      (s : Desk) (f : FetchCall) {others : List FetchCall}
      → Inv s
      → Pick w s.waiting rest
      → Pick f s.deleted others
      → f.call ≡ w.call
      → CanServe s w rest
  serve_deleted s f v p q e =
      CanServe-Step w (closes f q) e refl (serve_closed _ f (Step-Inv (closes f q) v) p head e)

  serve_stored :
      (s : Desk) (f : FetchCall) {others : List FetchCall}
      → Inv s
      → Pick w s.waiting rest
      → Pick f s.stored others
      → f.call ≡ w.call
      → CanServe s w rest
  serve_stored s f v p q e =
      CanServe-Step w (deletes f q) e refl (serve_deleted _ f (Step-Inv (deletes f q) v) p head e)

  serve_producing :
      (s : Desk) (f : FetchCall) {others : List FetchCall}
      → Inv s
      → Pick w s.waiting rest
      → Pick f s.producing others
      → f.call ≡ w.call
      → CanServe s w rest
  serve_producing s f v p q e =
      CanServe-Step w (returns f [] 200 q) e refl
        (serve_stored _ (with_result f [] 200) (Step-Inv (returns f [] 200 q) v) p head e)

-- In every reachable state, for every caller that waits, steps of the call that it waits on, and no
-- other, lead to a state in which that call is closed and the caller still waits; the reply that comes
-- next answers this caller and nobody else, with the body and the status of that call, which a
-- producer of the caller's endpoint returned: no order of callers, deletions and sessions leaves a
-- caller behind a call that is gone.
pub waiter_served :
    {s : Desk} {rest : List Waiter} (w : Waiter)
    → Reachable s
    → Pick w s.waiting rest
    → CanServe s w rest
waiter_served {s} {rest} w r p = by_place (
    ground
      (arith, (All-Pick (λ (u : Waiter). 0 < under_way s u.call) p (Reachable-Backed r).awaited).0))
  where
    v : Inv s
    v = Reachable-Inv r

    by_place :
        (0 < numbered w.call s.producing)
          ⊎ (0 < numbered w.call s.stored)
          ⊎ (0 < numbered w.call s.deleted)
          ⊎ (0 < numbered w.call s.closed)
        → CanServe s w rest
    by_place (inl h) =
        let (f, others, q, e) = pick_numbered w.call s.producing h in serve_producing w s f v p q e
    by_place (inr (inl h)) =
        let (f, others, q, e) = pick_numbered w.call s.stored h in serve_stored w s f v p q e
    by_place (inr (inr (inl h))) =
        let (f, others, q, e) = pick_numbered w.call s.deleted h in serve_deleted w s f v p q e
    by_place (inr (inr (inr h))) =
        let (f, others, q, e) = pick_numbered w.call s.closed h in serve_closed w s f v p q e
