-- ===== src/Refresh/Desk/Invariant.antt =====
-- What holds of the calls, their callers and the cache in every reachable state.
use Prim.Native.String.{String}
use zdash.Prelude.{
  ℕ, ◌<◌, ◌≡◌, ◌⊎◌, inl, inr, List, [], ◌∷◌, Option, none, some, ◌==◌, if◌then◌else◌, length, All,
  All-mono, arith,
}
use zdash.Table.{find}
use zdash.Refresh.{RefreshEntry, err_body, not_found, service_unavailable}
use zdash.Refresh.Desk.{FetchCall, Waiter, Answer, Desk}

-- The endpoint of a call.
abbrev pub key_of : List String → ℕ → Option String
key_of [] c = none
key_of (k ∷ ks) c = if c == length ks then some k else key_of ks c

key_of-lt : (ks : List String) (c : ℕ) (k : String) → key_of ks c ≡ some k → c < length ks
key_of-lt [] c k h = absurd (cc)
key_of-lt (j ∷ ks) c k h = ground (arith, key_of-lt ks c k)

-- A later call leaves the endpoints of the earlier ones.
pub key_of-cons :
    (j : String) (ks : List String) (c : ℕ) (k : String)
    → key_of ks c ≡ some k
    → key_of (j ∷ ks) c ≡ some k
key_of-cons j ks c k h = ground (arith, key_of-lt ks c k h)

abbrev pub Among : Answer → List Answer → Type 0
Among a [] = ⊥
Among a (b ∷ l) = (b ≡ a) ⊎ Among a l

-- What `get` and `wait` answer on their own.
pub data IsRefusal (a : Answer) : Type 0 where
  unknown : a.body ≡ err_body "unknown endpoint" → a.status ≡ not_found → IsRefusal a
  ended : a.body ≡ err_body "session ended" → a.status ≡ service_unavailable → IsRefusal a
  timed_out :
      a.body ≡ err_body "timed out waiting for background refresh"
      → a.status ≡ service_unavailable
      → IsRefusal a

abbrev pub IsHonest : List Answer → Answer → Type 0
IsHonest produced a = Among a produced ⊎ IsRefusal a

abbrev pub result_of : FetchCall → Answer
result_of f = record { key = f.key; body = f.body; status = f.status }

-- A call behind its producer: its endpoint, and its result.
abbrev pub IsReturned : List String → List Answer → FetchCall → Type 0
IsReturned launched produced f =
    (key_of launched f.call ≡ some f.key) × Among (result_of f) produced

abbrev pub HasKey : List String → FetchCall → Type 0
HasKey launched f = key_of launched f.call ≡ some f.key

abbrev pub Awaits : List String → Waiter → Type 0
Awaits launched w = key_of launched w.call ≡ some w.key

pub record Inv (s : Desk) : Type 0 where
  pub running : All (HasKey s.launched) s.producing
  pub storing : All (IsReturned s.launched s.produced) s.stored
  pub deleting : All (IsReturned s.launched s.produced) s.deleted
  pub closing : All (IsReturned s.launched s.produced) s.closed
  pub waiters : All (Awaits s.launched) s.waiting
  pub named : (k : String) (c : ℕ) → find k s.cache.inflight ≡ some c → key_of s.launched c ≡ some k
  pub cached :
      (k : String) (e : RefreshEntry)
      → find k s.cache.entries ≡ some e
      → Among (record { key = k; body = e.body; status = e.status }) s.produced
  pub honest : All (IsHonest s.produced) s.answered

-- What holds goes on to hold when a call is launched, and when a producer returns.
module _ (key : String) (launched : List String) (produced : List Answer) where
  pub HasKey-cons : (l : List FetchCall) → All (HasKey launched) l → All (HasKey (key ∷ launched)) l
  HasKey-cons l = All-mono _ _ l (λ f. key_of-cons key launched f.call f.key)

  pub IsReturned-cons :
      (l : List FetchCall)
      → All (IsReturned launched produced) l
      → All (IsReturned (key ∷ launched) produced) l
  IsReturned-cons l = All-mono _ _ l λ f h. (key_of-cons key launched f.call f.key h.0, h.1)

  pub Awaits-cons : (l : List Waiter) → All (Awaits launched) l → All (Awaits (key ∷ launched)) l
  Awaits-cons l = All-mono _ _ l (λ w. key_of-cons key launched w.call w.key)

module _ (launched : List String) (a : Answer) (produced : List Answer) where
  pub IsReturned-produced :
      (l : List FetchCall)
      → All (IsReturned launched produced) l
      → All (IsReturned launched (a ∷ produced)) l
  IsReturned-produced l = All-mono _ _ l (λ f h. (h.0, inr h.1))

  pub IsHonest-produced :
      (l : List Answer) → All (IsHonest produced) l → All (IsHonest (a ∷ produced)) l
  IsHonest-produced l = All-mono _ _ l λ b h. elim h [ inl p ↦ inl (inr p) | inr r ↦ inr r ]
