-- ===== src/Refresh/Desk.antt =====
-- The callers of `get`, up to their answers: the calls that they share, each with its goroutine, and
-- the `wait` of refresher.go.
pub mod Invariant
pub mod Moves
pub mod Provenance
pub mod Waiters
pub mod Service
mod Tests
use Prim.Native.String.{String}
use text.Mathlib.Text.{◌==◌ as str_eq}
use zdash.Prelude.{
  ℕ, suc, ◌+◌, ◌≡◌, ◌⊎◌, Bool, true, false, List, [], ◌∷◌, Option, none, some, ◌==◌, if◌then◌else◌,
  Bytes, Pick, length,
}
use zdash.Refresh.{
  Refresher, Start, answer, join, launch, new_refresher, set_active, get, store, fetch_done, wait,
}

-- A `fetchCall` with the goroutine that runs it: `body` and `status` are zero until the producer
-- has returned.
pub record FetchCall : Type 0 where
  pub key : String
  pub call : ℕ
  pub gen : ℕ
  pub body : Bytes
  pub status : ℕ

-- A caller in `wait`, on the call of this number.
pub record Waiter : Type 0 where
  pub key : String
  pub call : ℕ

-- What a producer returned, and what a caller was answered, for an endpoint.
pub record Answer : Type 0 where
  pub key : String
  pub body : Bytes
  pub status : ℕ

pub record Desk : Type 0 where
  pub cache : Refresher
  pub now : ℕ
  pub launched : List String  -- the endpoint of each call, the newest first
  pub producing : List FetchCall  -- the producer runs
  pub stored : List FetchCall  -- behind the store
  pub deleted : List FetchCall  -- behind `delete(r.inflight, key)`
  pub closed : List FetchCall  -- behind `close(call.done)`
  pub waiting : List Waiter
  pub answered : List Answer
  pub produced : List Answer

abbrev pub opened : Desk
opened = record {
  cache = new_refresher;
  now = 0;
  launched = [];
  producing = [];
  stored = [];
  deleted = [];
  closed = [];
  waiting = [];
  answered = [];
  produced = [];
}

-- where a caller goes on behind its first hold of the lock
abbrev pub admit : String → Desk → Refresher × Start → Desk
admit key s (r, answer body status) = record s {
  cache = r;
  answered = record { key = key; body = body; status = status } ∷ s.answered;
}
admit key s (r, join call) = record s {
  cache = r;
  waiting = record { key = key; call = call } ∷ s.waiting;
}
admit key s (r, launch call gen) = record s {
  cache = r;
  launched = key ∷ s.launched;
  producing = record { key = key; call = call; gen = gen; body = []; status = 0 } ∷ s.producing;
  waiting = record { key = key; call = call } ∷ s.waiting;
}

abbrev pub with_result : FetchCall → Bytes → ℕ → FetchCall
with_result f body status = record f { body = body; status = status }

-- the two ends of `wait`
abbrev pub answer_to : Waiter → Bytes × ℕ → Answer
answer_to w (body, status) = record { key = w.key; body = body; status = status }

pub data Step (s : Desk) : Desk → Type 0 where
  asks : (key : String) → Step s (admit key s (get s.now s.cache key (length s.launched)))
  returns :
      (f : FetchCall) (body : Bytes) (status : ℕ) {rest : List FetchCall}
      → Pick f s.producing rest
      → Step s (record s {
        cache = store s.now f.key f.gen body status s.cache;
        producing = rest;
        stored = with_result f body status ∷ s.stored;
        produced = record { key = f.key; body = body; status = status } ∷ s.produced;
      })
  deletes :
      (f : FetchCall) {rest : List FetchCall}
      → Pick f s.stored rest
      → Step s
          (record s { cache = fetch_done f.key s.cache; stored = rest; deleted = f ∷ s.deleted })
  closes :
      (f : FetchCall) {rest : List FetchCall}
      → Pick f s.deleted rest
      → Step s (record s { deleted = rest; closed = f ∷ s.closed })
  replies :
      (w : Waiter) (f : FetchCall) {rest : List Waiter} {others : List FetchCall}
      → Pick w s.waiting rest
      → Pick f s.closed others
      → f.call ≡ w.call
      → Step s (record s {
        waiting = rest;
        answered = answer_to w (wait (some (f.body, f.status)) w.key s.cache) ∷ s.answered;
      })
  gives_up :
      (w : Waiter) {rest : List Waiter}
      → Pick w s.waiting rest
      → Step s (record s {
        waiting = rest;
        answered = answer_to w (wait none w.key s.cache) ∷ s.answered;
      })
  activates : Step s (record s { cache = (set_active true s.cache).0 })
  deactivates : Step s (record s { cache = (set_active false s.cache).0 })
  elapses : (n : ℕ) → Step s (record s { now = s.now + n })

pub data Reach (s : Desk) : Desk → Type 0 where
  here : Reach s s
  later : {t u : Desk} → Reach s t → Step t u → Reach s u

abbrev pub Reachable : Desk → Type 0
Reachable = Reach opened
