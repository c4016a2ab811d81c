-- ===== src/Web/Answers.antt =====
-- What a client of the API sees.
use Prim.Native.String.{String}
use text.Mathlib.TextEquality.{eq_iff}
use text.Mathlib.TextPositions.{eq_refl}
use zdash.Prelude.{
  ℕ, ◌-◌, ◌<◌, ◌≡◌, ◌≢◌, ◌⊎◌, List, ◌∷◌, Pick, refl, some, if◌then◌else◌, Bytes, arith, ◌==◌,
}
use zdash.Table.{find, find-put}
use zdash.Refresh.{Refresher, RefreshEntry, store, ttl_of, get}
use zdash.Refresh.{set_active, fetch_done}
use zdash.Refresh.System.{
  System, Fetch, Step, elapses, activates, deactivates, gets, stores, ends, flushes, Reach, here,
  later,
}
use zdash.Web.{Response, replied, json_response, http_error, serve_refresh}

if_same {ℓ} : (n : ℕ) {A : Type ℓ} (x y : A) → (if n == n then x else y) ≡ x
if_same n x y = ground arith

serve_fresh :
    (r : Refresher) (method key : String) (now call : ℕ) (e : RefreshEntry)
    → (method ≡ "GET") ⊎ (method ≡ "HEAD")
    → find key r.entries ≡ some e
    → now - e.fetched < ttl_of r key
    → serve_refresh method now r key call ≡ (r, replied (json_response e.body e.status))
unfolding serve_refresh get
serve_fresh r method key now call e m h fresh =
    ground (arith, eq_iff method "GET", eq_iff method "HEAD")

-- The system behind the store of a fetch.
abbrev pub behind_store : System → Fetch → Bytes → ℕ → List Fetch → System
behind_store s f body status rest = record s {
  cache = store s.now f.key f.gen body status s.cache;
  fetching = rest;
  stored = f ∷ s.stored;
}

-- A step that drops no answers and stores none for this endpoint; and a run of such steps.
abbrev pub Keeps : String → {s t : System} → Step s t → Type 0
Keeps key deactivates = ⊥
Keeps key flushes = ⊥
Keeps key (stores f body status p) = f.key ≢ key
Keeps key _ = Unit

abbrev pub AllKeep : String → {s t : System} → Reach s t → Type 0
AllKeep key here = Unit
AllKeep key (later q st) = AllKeep key q × Keeps key st

Step-entry :
    (key : String) (e : RefreshEntry) {s t : System} (st : Step s t)
    → Keeps key st
    → find key s.cache.entries ≡ some e
    → find key t.cache.entries ≡ some e
unfolding set_active get store fetch_done
Step-entry key e (elapses n) k h = h
Step-entry key e activates k h = ground arith
Step-entry key e (gets other) k h = ground arith
Step-entry key e {s} (stores f body status p) k h = ground (
  arith,
  eq_iff f.key key,
  find-put f.key key (record { body = body; status = status; fetched = s.now }) s.cache.entries,
)
Step-entry key e (ends f p) k h = h
Step-entry key e deactivates k h = absurd k
Step-entry key e flushes k h = absurd k

Reach-entry :
    (key : String) (e : RefreshEntry) {s t : System} (q : Reach s t)
    → AllKeep key q
    → find key s.cache.entries ≡ some e
    → find key t.cache.entries ≡ some e
Reach-entry key e here k h = h
Reach-entry key e (later q st) k h = Step-entry key e st k.1 (Reach-entry key e q k.0 h)

stored_entry :
    (s : System) (f : Fetch) (body : Bytes) (status : ℕ) (rest : List Fetch)
    → f.gen ≡ s.cache.gen
    → find f.key (behind_store s f body status rest).cache.entries
      ≡ some (record { body = body; status = status; fetched = s.now })
unfolding store
stored_entry s f body status rest g =
    rw (g, if_same s.cache.gen _ _) (rw find-put (rw eq_refl refl))

-- From a fetch to its answer. Once a fetch of the running session has stored its result, and through
-- any run that neither ends the session, nor flushes the cache, nor stores another result for the
-- endpoint, every GET or HEAD within the endpoint's lifetime is answered with exactly the bytes and
-- the status that the producer returned, as uncached JSON, and leaves the refresher as it is.
pub stored_result_served :
    (s : System) {t : System} {rest : List Fetch} (f : Fetch) (method : String) (body : Bytes)
    (status call : ℕ) (q : Reach (behind_store s f body status rest) t)
    → Pick f s.fetching rest
    → f.gen ≡ s.cache.gen
    → (method ≡ "GET") ⊎ (method ≡ "HEAD")
    → AllKeep f.key q
    → t.now - s.now < ttl_of t.cache f.key
    → serve_refresh method t.now t.cache f.key call ≡ (t.cache, replied (json_response body status))
stored_result_served s {t} {rest} f method body status call q p g m k fresh =
    serve_fresh t.cache method f.key t.now call
      (record { body = body; status = status; fetched = s.now }) m
      (Reach-entry f.key _ q k (stored_entry s f body status rest g)) fresh

-- Any method but GET and HEAD is refused with status 405 and leaves the refresher as it is, so that
-- it starts no fetch.
serve_refresh_methods :
    (r : Refresher) (method key : String) (now call : ℕ)
    → method ≢ "GET"
    → method ≢ "HEAD"
    → (resp : Response) × (serve_refresh method now r key call ≡ (r, replied resp))
      × (resp.status ≡ 405)
unfolding serve_refresh
serve_refresh_methods r method key now call g h = (
  http_error "Method not allowed" 405,
  ground (arith, eq_iff method "GET", eq_iff method "HEAD"),
  unfold http_error in refl,
)
