-- ===== src/Refresh/Desk/Waiters.antt =====
-- No caller is stranded: the call that it waits on is always on its way.
use Prim.Native.String.{String}
use text.Mathlib.Text.{◌==◌ as str_eq}
use text.Mathlib.TextEquality.{eq_iff}
use zdash.Prelude.{
  ℕ, ◌+◌, ◌<◌, ◌≤◌, ◌≡◌, inl, inr, refl, ap, ◌&&◌, List, [], ◌∷◌, Option, none, some, ◌==◌,
  if◌then◌else◌, Pick, head, next, length, All, All-Pick, All-mono, arith,
}
use zdash.Table.{find, put, find-put, find-delete}
use zdash.Refresh.{launch, set_active, get, store, fetch_done}
use zdash.Refresh.Sessions.{get_branches}
use zdash.Refresh.Desk.{
  FetchCall, Waiter, Desk, admit, Step, asks, returns, deletes, closes, replies, gives_up,
  activates, deactivates, elapses, here, later, Reachable,
}

-- The calls of this number, and those of this endpoint among them.
abbrev pub numbered : ℕ → List FetchCall → ℕ
numbered c [] = 0
numbered c (f ∷ l) = (if f.call == c then 1 else 0) + numbered c l

abbrev pub tally : String → ℕ → List FetchCall → ℕ
tally k c [] = 0
tally k c (f ∷ l) = (if f.call == c && str_eq f.key k then 1 else 0) + tally k c l

abbrev names : Option ℕ → ℕ → ℕ
names none c = 0
names (some d) c = if d == c then 1 else 0

tally-le-numbered : (k : String) (c : ℕ) (l : List FetchCall) → tally k c l ≤ numbered c l
tally-le-numbered k c [] = omega arith
tally-le-numbered k c (f ∷ l) = ground (arith, tally-le-numbered k c l)

numbered-Pick :
    (c : ℕ) {f : FetchCall} {l rest : List FetchCall}
    → Pick f l rest
    → numbered c l ≡ (if f.call == c then 1 else 0) + numbered c rest
numbered-Pick c head = refl
numbered-Pick c (next p) = omega (arith, numbered-Pick c p)

tally-Pick :
    (k : String) (c : ℕ) {f : FetchCall} {l rest : List FetchCall}
    → Pick f l rest
    → tally k c l ≡ (if f.call == c && str_eq f.key k then 1 else 0) + tally k c rest
tally-Pick k c head = refl
tally-Pick k c (next p) = omega (arith, tally-Pick k c p)

-- A call of this number, wherever it stands.
abbrev pub under_way : Desk → ℕ → ℕ
under_way s c =
    numbered c s.producing + numbered c s.stored + numbered c s.deleted + numbered c s.closed

-- `inflight` names the calls whose entry is not deleted yet; every caller's call is somewhere.
pub record Backed (s : Desk) : Type 0 where
  pub matched :
      (k : String) (c : ℕ)
      → tally k c s.producing + tally k c s.stored ≡ names (find k s.cache.inflight) c
  pub awaited : All (λ w. 0 < under_way s w.call) s.waiting

Step-matched :
    {s t : Desk}
    → Step s t
    → Backed s
    → (k : String) (c : ℕ)
    → tally k c t.producing + tally k c t.stored ≡ names (find k t.cache.inflight) c
unfolding set_active get store fetch_done
Step-matched {s} (asks key) v k c =
    ground (arith, v.matched k c, eq_iff key k, find-put key k (length s.launched) s.cache.inflight)
Step-matched {s} (returns f body status p) v k c = ground (arith, v.matched k c, tally-Pick k c p)
Step-matched {s} (deletes f p) v k c = ground (
  arith,
  v.matched k c,
  v.matched k f.call,
  tally-Pick k c p,
  tally-Pick k f.call p,
  eq_iff f.key k,
  find-delete f.key k s.cache.inflight,
)
Step-matched {s} (closes f p) v k c = v.matched k c
Step-matched {s} (replies w f p q e) v k c = v.matched k c
Step-matched {s} (gives_up w p) v k c = v.matched k c
Step-matched {s} activates v k c = ground (arith, v.matched k c)
Step-matched {s} deactivates v k c = ground (arith, v.matched k c)
Step-matched {s} (elapses n) v k c = v.matched k c

-- No step loses a call.
Step-under_way : {s t : Desk} → Step s t → (c : ℕ) → under_way s c ≤ under_way t c
unfolding get
Step-under_way {s} (asks key) c = ground arith
Step-under_way {s} (returns f body status p) c = ground (arith, numbered-Pick c p)
Step-under_way {s} (deletes f p) c = ground (arith, numbered-Pick c p)
Step-under_way {s} (closes f p) c = ground (arith, numbered-Pick c p)
Step-under_way {s} st c = omega arith

awaited_mono :
    (s t : Desk) (l : List Waiter)
    → ((c : ℕ) → under_way s c ≤ under_way t c)
    → All (λ w. 0 < under_way s w.call) l
    → All (λ w. 0 < under_way t w.call) l
awaited_mono s t l up = All-mono _ _ l (λ w h. omega (arith, up w.call))

-- A new caller waits on a call that is under way.
asks-awaited :
    (s : Desk) (key : String)
    → Backed s
    → let t = admit key s (get s.now s.cache key (length s.launched)) in
      All (λ w. 0 < under_way t w.call) t.waiting
asks-awaited s key v = elim (get_branches s.cache s.now (length s.launched) key) [
  | inl (e, cached, fresh, g) ↦ rw g v.awaited
  | inr (stale, inl (c, joined, g)) ↦ rw g (
    ground (
      arith,
      v.matched key c,
      ap (λ o. names o c) joined,
      tally-le-numbered key c s.producing,
      tally-le-numbered key c s.stored,
    ),
    v.awaited,
  )
  | inr (stale, inr (inl (free, unknown, g))) ↦ rw g v.awaited
  | inr (stale, inr (inr (inl (free, known, closed, g)))) ↦ rw g v.awaited
  | inr (stale, inr (inr (inr (free, known, runs, g)))) ↦
      let t = admit key s (
        record (s.cache) { inflight = put key (length s.launched) s.cache.inflight },
        launch (length s.launched) s.cache.gen,
      ) in
      rw g (ground arith, awaited_mono s t s.waiting (λ c. omega arith) v.awaited)
]

-- The callers that a step leaves were there, or have just come.
Step-awaited : {s t : Desk} → Step s t → Backed s → All (λ w. 0 < under_way t w.call) t.waiting
Step-awaited {s} (asks key) v = asks-awaited s key v
Step-awaited {s} (replies w f p q e) v = (All-Pick _ p v.awaited).1
Step-awaited {s} (gives_up w p) v = (All-Pick _ p v.awaited).1
Step-awaited {s} {t} (returns f body status p) v =
    awaited_mono s t s.waiting (Step-under_way {s = s} (returns f body status p)) v.awaited
Step-awaited {s} {t} (deletes f p) v =
    awaited_mono s t s.waiting (Step-under_way {s = s} (deletes f p)) v.awaited
Step-awaited {s} {t} (closes f p) v =
    awaited_mono s t s.waiting (Step-under_way {s = s} (closes f p)) v.awaited
Step-awaited {s} activates v = v.awaited
Step-awaited {s} deactivates v = v.awaited
Step-awaited {s} (elapses n) v = v.awaited

pub Reachable-Backed : {s : Desk} → Reachable s → Backed s
unfolding find
Reachable-Backed here = record { matched = λ k c. refl; awaited = tt }
Reachable-Backed (later r st) =
    let v = Reachable-Backed r in
    record { matched = Step-matched st v; awaited = Step-awaited st v }
