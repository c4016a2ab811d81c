-- ===== src/Refresh/Memory.antt =====
-- Asleep, the refresher holds no answers.
use zdash.Prelude.{
  ℕ, suc, ◌^◌, ◌<◌, ◌≡◌, ◌≢◌, refl, false, [], none, some, arith, All, All-Pick, All-mono,
}
use zdash.Refresh.{is_closed, set_active, get, store, fetch_done, flush}
use zdash.Refresh.System.{
  System, Fetch, Step, elapses, activates, deactivates, gets, stores, ends, flushes, here, later,
  Reachable,
}
use zdash.Refresh.Invariant.{IsDated, Inv, Reachable-Inv, Reach-ends}

-- Started before the last session end.
abbrev IsLate : ℕ → Fetch → Type 0
IsLate n f = f.born < n

-- Behind the end of a session nothing is cached, and all that still runs is late.
record IsEmptied (s : System) : Type 0 where
  empty : s.cache.active ≡ false → s.cache.stop ≡ some is_closed → s.cache.entries ≡ []
  late : s.cache.active ≡ false → s.cache.stop ≡ some is_closed → All (IsLate s.ends) s.fetching

Step-IsEmptied : {s t : System} → Step s t → t.ends < 2 ^ 64 → Inv s → IsEmptied s → IsEmptied t
unfolding set_active get store fetch_done flush
Step-IsEmptied {s} (elapses n) b v m = ground arith
Step-IsEmptied {s} activates b v m = ground arith
Step-IsEmptied {s} deactivates b v m = record {
  empty = λ a c. refl;
  late = λ a c.
      All-mono (IsDated s.ends) (IsLate (suc s.ends)) s.fetching (λ f h. omega (arith, h.0))
        v.dated;
}
Step-IsEmptied {s} (gets key) b v m = ground arith
Step-IsEmptied {s} (stores f body status p) b v m = record {
  empty = λ a c.
      let ended : s.cache.active ≡ false = ground arith in
      let closed : s.cache.stop ≡ some is_closed = ground arith in
      ground (
        arith,
        m.empty ended closed,
        All-Pick (IsLate s.ends) p (m.late ended closed),
        All-Pick (IsDated s.ends) p v.dated,
        v.numbered,
      );
  late = λ a c. (All-Pick (IsLate s.ends) p (m.late (ground arith) (ground arith))).1;
}
Step-IsEmptied {s} (ends f p) b v m = ground arith
Step-IsEmptied {s} flushes b v m = ground arith

Reach-IsEmptied : {s : System} → Reachable s → s.ends < 2 ^ 64 → IsEmptied s
Reach-IsEmptied here b = record { empty = λ a c. refl; late = λ a c. tt }
Reach-IsEmptied (later r st) b =
    Step-IsEmptied st b (Reachable-Inv r)
      (Reach-IsEmptied r (omega (arith, Reach-ends (later here st))))

-- In every reachable state in which a session has ended and none runs, up to 2^64 session ends, no
-- answer is cached for any endpoint, whatever fetches were running at the end and have stored since.
pub ended_session_empty :
    {s : System}
    → Reachable s
    → s.ends < 2 ^ 64
    → s.cache.active ≡ false
    → s.cache.stop ≢ none
    → s.cache.entries ≡ []
ended_session_empty {s} r b a made = (Reach-IsEmptied r b).empty a (ground (arith, Reachable-Inv r))
