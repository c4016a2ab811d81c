-- ===== src/Refresh/Desk/Moves.antt =====
-- Every step keeps the invariant.
use Prim.Native.String.{String}
use text.Mathlib.TextEquality.{eq_iff}
use zdash.Prelude.{
  ℕ, ◌≡◌, inl, inr, refl, Bool, true, false, List, ◌∷◌, none, some, Bytes, Pick, length, All-Pick,
  arith, Option-cases,
}
use zdash.Table.{find, put, find-put, find-delete}
use zdash.Refresh.{launch, set_active, get, store, fetch_done, wait}
use zdash.Refresh.Sessions.{get_branches}
use zdash.Refresh.Desk.{
  FetchCall, Waiter, Answer, Desk, admit, with_result, answer_to, Step, asks, returns, deletes,
  closes, replies, gives_up, activates, deactivates, elapses,
}
use zdash.Refresh.Desk.Invariant.{
  key_of-cons, unknown, ended, timed_out, IsHonest, IsReturned, HasKey, Awaits, Inv, HasKey-cons,
  IsReturned-cons, Awaits-cons, IsReturned-produced, IsHonest-produced,
}

Inv-launch :
    (s : Desk) (key : String)
    → Inv s
    → Inv (
        admit key s (
          record (s.cache) { inflight = put key (length s.launched) s.cache.inflight },
          launch (length s.launched) s.cache.gen,
        ))
Inv-launch s key v = record {
  running = (ground arith, HasKey-cons key s.launched s.produced s.producing v.running);
  storing = IsReturned-cons key s.launched s.produced s.stored v.storing;
  deleting = IsReturned-cons key s.launched s.produced s.deleted v.deleting;
  closing = IsReturned-cons key s.launched s.produced s.closed v.closing;
  waiters = (ground arith, Awaits-cons key s.launched s.produced s.waiting v.waiters);
  named = λ k c e. ground (
    arith,
    eq_iff key k,
    find-put key k (length s.launched) s.cache.inflight,
    v.named k c,
    key_of-cons key s.launched c k,
  );
  cached = v.cached;
  honest = v.honest;
}

-- An honest answer in front, or one more caller of a call.
Inv-answered :
    (s : Desk) (a : Answer)
    → IsHonest s.produced a
    → Inv s
    → Inv (record s { answered = a ∷ s.answered })
Inv-answered s a h v = ground (arith, h, v)

Inv-joined :
    (s : Desk) (w : Waiter)
    → Awaits s.launched w
    → Inv s
    → Inv (record s { waiting = w ∷ s.waiting })
Inv-joined s w h v = ground (arith, h, v)

Inv-asks :
    (s : Desk) (key : String)
    → Inv s
    → Inv (admit key s (get s.now s.cache key (length s.launched)))
Inv-asks s key v = elim (get_branches s.cache s.now (length s.launched) key) [
  | inl (e, cached, fresh, g) ↦ rw g (Inv-answered s _ (inl (v.cached key e cached)) v)
  | inr (stale, inl (c, joined, g)) ↦ rw g (Inv-joined s _ (v.named key c joined) v)
  | inr (stale, inr (inl (free, unknown_key, g))) ↦
      rw g (Inv-answered s _ (inr (unknown refl refl)) v)
  | inr (stale, inr (inr (inl (free, known, closed, g)))) ↦
      rw g (Inv-answered s _ (inr (ended refl refl)) v)
  | inr (stale, inr (inr (inr (free, known, runs, g)))) ↦ rw g (Inv-launch s key v)
]

Inv-returns :
    (s : Desk) (f : FetchCall) (body : Bytes) (status : ℕ) {rest : List FetchCall}
    → Pick f s.producing rest
    → Inv s
    → Inv (record s {
      cache = store s.now f.key f.gen body status s.cache;
      producing = rest;
      stored = with_result f body status ∷ s.stored;
      produced = record { key = f.key; body = body; status = status } ∷ s.produced;
    })
unfolding store
Inv-returns s f body status {rest} p v =
    let a : Answer = record { key = f.key; body = body; status = status } in
    let (mine, others) = All-Pick (HasKey s.launched) p v.running in
    record {
      running = others;
      storing = ((mine, inl refl), IsReturned-produced s.launched a s.produced s.stored v.storing);
      deleting = IsReturned-produced s.launched a s.produced s.deleted v.deleting;
      closing = IsReturned-produced s.launched a s.produced s.closed v.closing;
      waiters = v.waiters;
      named = λ k c e. v.named k c (ground arith);
      cached = λ k e h. ground (
        arith,
        eq_iff f.key k,
        find-put f.key k (record { body = body; status = status; fetched = s.now }) s.cache.entries,
        v.cached k e,
      );
      honest = IsHonest-produced s.launched a s.produced s.answered v.honest;
    }

Inv-deletes :
    (s : Desk) (f : FetchCall) {rest : List FetchCall}
    → Pick f s.stored rest
    → Inv s
    → Inv (record s { cache = fetch_done f.key s.cache; stored = rest; deleted = f ∷ s.deleted })
unfolding fetch_done
Inv-deletes s f p v =
    let (mine, others) = All-Pick (IsReturned s.launched s.produced) p v.storing in
    record {
      running = v.running;
      storing = others;
      deleting = (mine, v.deleting);
      closing = v.closing;
      waiters = v.waiters;
      named = λ k c e. ground (arith, find-delete f.key k s.cache.inflight, v.named k c);
      cached = v.cached;
      honest = v.honest;
    }

Inv-closes :
    (s : Desk) (f : FetchCall) {rest : List FetchCall}
    → Pick f s.deleted rest
    → Inv s
    → Inv (record s { deleted = rest; closed = f ∷ s.closed })
Inv-closes s f p v = ground (arith, All-Pick (IsReturned s.launched s.produced) p v.deleting, v)

-- A caller that goes, with an honest answer.
Inv-leaves :
    (s : Desk) (w : Waiter) (a : Answer) {rest : List Waiter}
    → Pick w s.waiting rest
    → IsHonest s.produced a
    → Inv s
    → Inv (record s { waiting = rest; answered = a ∷ s.answered })
Inv-leaves s w a p h v = ground (arith, All-Pick (Awaits s.launched) p v.waiters, h, v)

-- A call answers the callers of its own endpoint.
reply-IsHonest :
    (s : Desk) (w : Waiter) (f : FetchCall) {rest : List Waiter} {others : List FetchCall}
    → Pick w s.waiting rest
    → Pick f s.closed others
    → f.call ≡ w.call
    → Inv s
    → IsHonest s.produced (answer_to w (wait (some (f.body, f.status)) w.key s.cache))
unfolding wait
reply-IsHonest s w f p q e v =
    let (key, among) = (All-Pick (IsReturned s.launched s.produced) q v.closing).0 in
    let mine = (All-Pick (Awaits s.launched) p v.waiters).0 in
    let same : f.key ≡ w.key = cc (key, mine, e) in inl (rw same at among)

give_up-IsHonest :
    (s : Desk) (w : Waiter) → Inv s → IsHonest s.produced (answer_to w (wait none w.key s.cache))
unfolding wait
give_up-IsHonest s w v = elim (Option-cases (find w.key s.cache.entries)) [
  | inl e ↦ rw (e, wait) (inr (timed_out refl refl))
  | inr (entry, e) ↦ rw (e, wait) (inl (v.cached w.key entry e))
]

-- A session's start or end keeps or drops what is cached, and leaves the calls.
Inv-session : (s : Desk) (on : Bool) → Inv s → Inv (record s { cache = (set_active on s.cache).0 })
unfolding set_active find
Inv-session s true v = ground (arith, v)
Inv-session s false v = ground (arith, v)

pub Step-Inv : {s t : Desk} → Step s t → Inv s → Inv t
unfolding set_active
Step-Inv {s} (asks key) v = Inv-asks s key v
Step-Inv {s} (returns f body status p) v = Inv-returns s f body status p v
Step-Inv {s} (deletes f p) v = Inv-deletes s f p v
Step-Inv {s} (closes f p) v = Inv-closes s f p v
Step-Inv {s} (replies w f p q e) v = Inv-leaves s w _ p (reply-IsHonest s w f p q e v) v
Step-Inv {s} (gives_up w p) v = Inv-leaves s w _ p (give_up-IsHonest s w v) v
Step-Inv {s} activates v = Inv-session s true v
Step-Inv {s} deactivates v = Inv-session s false v
Step-Inv {s} (elapses n) v = ground (arith, v)
