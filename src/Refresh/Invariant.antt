-- ===== src/Refresh/Invariant.antt =====
-- What holds of the refresher in every reachable state: single flight, one loop, honest generations.
use Prim.Native.String.{String}
use text.Mathlib.Text.{◌==◌ as str_eq}
use text.Mathlib.TextEquality.{eq_iff}
use zdash.Prelude.{
  ℕ, suc, ◌+◌, ◌%◌, ◌^◌, ◌≤◌, ◌≡◌, refl, true, List, Option, none, some, if◌then◌else◌, arith, All,
  All-Pick, All-mono, Pick, head, next,
}
use zdash.Table.{find, find-put, find-delete}
use zdash.Refresh.{is_open, set_active, get, store, fetch_done, flush}
use zdash.Refresh.System.{
  System, Fetch, flights, Step, elapses, activates, deactivates, gets, stores, ends, flushes,
  started, Reach, here, later, Reachable,
}

abbrev pub present {ℓ} : {A : Type ℓ} → Option A → ℕ
present none = 0
present (some _) = 1

-- The generation that a fetch carries is that of the session end count at its start.
abbrev pub IsDated : ℕ → Fetch → Type 0
IsDated n f = (f.born ≤ n) × (f.gen ≡ f.born % 2 ^ 64)

pub record Inv (s : System) : Type 0 where
  pub numbered : s.cache.gen ≡ s.ends % 2 ^ 64
  pub dated : All (IsDated s.ends) s.fetching
  pub looped : s.loops ≡ (if s.cache.active then 1 else 0)
  pub active_open : s.cache.active ≡ true → s.cache.stop ≡ some is_open
  pub open_active : s.cache.stop ≡ some is_open → s.cache.active ≡ true

-- One fetch at most for each endpoint, and `inflight` names it.
abbrev pub Single : System → Type 0
Single s =
    (k : String) → flights k s.fetching + flights k s.stored ≡ present (find k s.cache.inflight)

flights-Pick :
    (k : String) {f : Fetch} {xs ys : List Fetch}
    → Pick f xs ys
    → flights k xs ≡ (if str_eq f.key k then 1 else 0) + flights k ys
flights-Pick k head = refl
flights-Pick k (next p) = omega (arith, flights-Pick k p)

Step-Single : {s t : System} → Step s t → Single s → Single t
unfolding set_active get store fetch_done flush
Step-Single {s} (elapses n) v k = v k
Step-Single {s} activates v k = ground (arith, v k)
Step-Single {s} deactivates v k = ground (arith, v k)
Step-Single {s} (gets key) v k =
    ground (arith, v k, eq_iff key k, find-put key k s.calls s.cache.inflight)
Step-Single {s} (stores f body status p) v k = ground (arith, v k, flights-Pick k p)
Step-Single {s} (ends f p) v k =
    ground (arith, v k, eq_iff f.key k, flights-Pick k p, find-delete f.key k s.cache.inflight)
Step-Single {s} flushes v k = v k

Step-Inv : {s t : System} → Step s t → Inv s → Inv t
unfolding set_active get store fetch_done flush
Step-Inv {s} (elapses n) v = ground arith
Step-Inv {s} activates v = ground arith
Step-Inv {s} deactivates v = ground (
  arith,
  All-mono (IsDated s.ends) (IsDated (suc s.ends)) s.fetching (λ f h. (omega arith, h.1)) v.dated,
)
Step-Inv {s} (gets key) v = ground arith
Step-Inv {s} (stores f body status p) v = ground (arith, All-Pick (IsDated s.ends) p v.dated)
Step-Inv {s} (ends f p) v = ground arith
Step-Inv {s} flushes v = ground arith

Reach-both : {s t : System} → Reach s t → Inv s × Single s → Inv t × Single t
Reach-both here v = v
Reach-both (later r st) v = let (i, o) = Reach-both r v in (Step-Inv st i, Step-Single st o)

pub Reach-Inv : {s t : System} → Reach s t → Inv s × Single s → Inv t
Reach-Inv r v = (Reach-both r v).0

started-both : Inv started × Single started
unfolding find
started-both = (ground arith, λ k. refl)

pub Reachable-Inv : {s : System} → Reachable s → Inv s
Reachable-Inv r = (Reach-both r started-both).0

pub Reachable-Single : {s : System} → Reachable s → Single s
Reachable-Single r = (Reach-both r started-both).1

-- The count of session ends never falls.
Step-ends : {s t : System} → Step s t → s.ends ≤ t.ends
unfolding get
Step-ends {s} (gets key) = ground arith
Step-ends {s} st = ground arith

pub Reach-ends : {s t : System} → Reach s t → s.ends ≤ t.ends
Reach-ends here = omega arith
Reach-ends (later r st) = omega (arith, Reach-ends r, Step-ends st)
