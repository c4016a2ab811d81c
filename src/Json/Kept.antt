-- ===== src/Json/Kept.antt =====
-- What decoding keeps of a value: a property that each member keeps, the whole keeps.
use zdash.Prelude.{
  ◌≡◌, Bool, true, false, [], ◌∷◌, Option, none, some, if◌then◌else◌, Bytes, All, arith,
}
use mathlib.Core.Path.{subst}
use zdash.Json.Maps.{Dict, put, IsAscending, put-IsAscending}
use zdash.Json.Values.{
  Json, null, bool, number, text, array, object, Members, end, member, and_then, set_fields,
  decode_struct, put_members, decode_map,
}

-- The property of a result, if there is one.
unfoldable pub Holds {ℓ κ} : {A : Type ℓ} → (A → Type κ) → Option A → Type κ
Holds P none = Unit
Holds P (some a) = P a

pub some-Holds {ℓ κ} : {A : Type ℓ} (P : A → Type κ) (a : A) → P a → Holds P (some a)
unfolding Holds
some-Holds P a h = h

pub at-Holds {ℓ κ} :
    {A : Type ℓ} (P : A → Type κ) (r : Option A) {a : A} → Holds P r → r ≡ some a → P a
unfolding Holds
at-Holds P r h e = subst (Holds P) e h

pub Holds-mono {ℓ κ μ} :
    {A : Type ℓ} (P : A → Type κ) (Q : A → Type μ) (r : Option A)
    → ((a : A) → P a → Q a)
    → Holds P r
    → Holds Q r
unfolding Holds
Holds-mono P Q none k h = tt
Holds-mono P Q (some a) k h = k a h

pub any-Holds {ℓ} : {A : Type ℓ} (r : Option A) → Holds {ℓ, 0} (λ a. Unit) r
unfolding Holds
any-Holds none = tt
any-Holds (some a) = tt

pub if-Holds {ℓ κ} :
    {A : Type ℓ} (P : A → Type κ) (b : Bool) (x y : Option A)
    → Holds P x
    → Holds P y
    → Holds P (if b then x else y)
unfolding Holds
if-Holds P true x y hx hy = hx
if-Holds P false x y hx hy = hy

pub and_then-Holds {ℓ κ μ ν} :
    {A : Type ℓ} {B : Type κ} (P : A → Type μ) (Q : B → Type ν) (r : Option A) (f : A → Option B)
    → Holds P r
    → ((a : A) → P a → Holds Q (f a))
    → Holds Q (and_then r f)
unfolding Holds
and_then-Holds P Q none f h k = tt
and_then-Holds P Q (some a) f h k = k a h

-- A member that sets a field, in front of the other members of its struct.
pub field-Holds {ℓ κ μ ν} :
    {A : Type ℓ} {S : Type κ} (P : A → Type μ) (Q : S → Type ν) (b : Bool) (r : Option A)
    (f : A → S) (rest : Option S)
    → Holds P r
    → ((a : A) → P a → Q (f a))
    → Holds Q rest
    → Holds Q (if b then and_then r (λ a. some (f a)) else rest)
unfolding Holds
field-Holds P Q b r f rest h k hs = if-Holds Q b _ rest (and_then-Holds P Q r _ h k) hs

-- The same, of a field whose value does not matter.
pub plain-Holds {ℓ κ ν} :
    {A : Type ℓ} {S : Type κ} (Q : S → Type ν) (b : Bool) (r : Option A) (f : A → S)
    (rest : Option S)
    → ((a : A) → Q (f a))
    → Holds Q rest
    → Holds Q (if b then and_then r (λ a. some (f a)) else rest)
unfolding Holds
plain-Holds Q b none f rest k hs = if-Holds Q b none rest tt hs
plain-Holds Q b (some a) f rest k hs = if-Holds Q b (some (f a)) rest (k a) hs

module _ {ℓ κ} {S : Type ℓ} (P : S → Type κ) (field : Bytes → Json → S → Option S)
    (keeps : (key : Bytes) (j : Json) (s : S) → P s → Holds P (field key j s)) where
  set_fields-Holds : (ms : Members) (s : S) → P s → Holds P (set_fields field ms s)
  unfolding set_fields Holds
  set_fields-Holds end s p = p
  set_fields-Holds (member key j ms) s p =
      and_then-Holds P P (field key j s) _ (keeps key j s p) (λ s' p'. set_fields-Holds ms s' p')

  pub decode_struct-Holds : (j : Json) (s : S) → P s → Holds P (decode_struct field j s)
  unfolding decode_struct Holds
  decode_struct-Holds null s p = p
  decode_struct-Holds (object ms) s p = set_fields-Holds ms s p
  decode_struct-Holds (bool b) s p = tt
  decode_struct-Holds (number n) s p = tt
  decode_struct-Holds (text t) s p = tt
  decode_struct-Holds (array a) s p = tt

module _ {ℓ κ} {V : Type ℓ} (Q : V → Type κ) where
  -- A map whose keys are in order and whose values have the property.
  abbrev pub Sound : Option (Dict V) → Type κ
  Sound none = Unit
  Sound (some m) = IsAscending m × All (λ e. Q e.1) m

  pub put-All :
      (k : Bytes) (v : V) (m : Dict V) → Q v → All (λ e. Q e.1) m → All (λ e. Q e.1) (put k v m)
  unfolding put
  put-All k v [] q h = (q, tt)
  put-All k v ((j, w) ∷ m) q h = ground (arith, put-All k v m)

  module _ (elem : Json → Option V) (elem-Holds : (j : Json) → Holds Q (elem j)) where
    put_members-Holds :
        (ms : Members) (m : Dict V)
        → IsAscending m × All (λ e. Q e.1) m
        → Holds (λ m. IsAscending m × All (λ e. Q e.1) m) (put_members elem ms m)
    unfolding put_members Holds
    put_members-Holds end m h = h
    put_members-Holds (member key j ms) m h = and_then-Holds Q _ (elem j) _ (elem-Holds j) (λ v q.
        put_members-Holds ms (put key v m) (put-IsAscending key v m h.0, put-All key v m q h.1))

    pub decode_map-Holds :
        (j : Json) (m : Option (Dict V)) → Sound m → Holds Sound (decode_map elem j m)
    unfolding decode_map Holds
    decode_map-Holds null m h = tt
    decode_map-Holds (object ms) none h =
        and_then-Holds _ Sound (put_members elem ms []) _ (put_members-Holds ms [] (tt, tt))
          (λ m' h'. h')
    decode_map-Holds (object ms) (some m) h =
        and_then-Holds _ Sound (put_members elem ms m) _ (put_members-Holds ms m h) (λ m' h'. h')
    decode_map-Holds (bool b) m h = tt
    decode_map-Holds (number n) m h = tt
    decode_map-Holds (text t) m h = tt
    decode_map-Holds (array a) m h = tt
