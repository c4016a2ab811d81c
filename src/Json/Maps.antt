-- ===== src/Json/Maps.antt =====
-- Go's `map[string]V`, as its entries in the order of their keys, which is the order in which
-- encoding/json writes them.
use zdash.Prelude.{
  ◌≡◌, refl, Bool, true, false, ◌||◌, ◌&&◌, List, [], ◌∷◌, ◌++◌, ltb, ◌==◌, if◌then◌else◌, Bytes,
  equal, equal_iff, arith,
}

-- `s < t` on strings
unfoldable pub before : Bytes → Bytes → Bool
before [] [] = false
before [] (d ∷ t) = true
before (c ∷ s) [] = false
before (c ∷ s) (d ∷ t) = ltb c d || (c == d && before s t)

pub before_trans : (s t u : Bytes) → before s t ≡ true → before t u ≡ true → before s u ≡ true
unfolding before
before_trans [] [] u h k = absurd (cc)
before_trans [] (d ∷ t) [] h k = absurd (cc)
before_trans [] (d ∷ t) (e ∷ u) h k = refl
before_trans (c ∷ s) [] u h k = absurd (cc)
before_trans (c ∷ s) (d ∷ t) [] h k = absurd (cc)
before_trans (c ∷ s) (d ∷ t) (e ∷ u) h k = ground (arith, before_trans s t u)

-- A later key is neither an earlier one nor the same.
pub before-asym : (s t : Bytes) → before s t ≡ true → before t s ≡ false
unfolding before
before-asym [] [] h = refl
before-asym [] (d ∷ t) h = refl
before-asym (c ∷ s) [] h = absurd (cc)
before-asym (c ∷ s) (d ∷ t) h = ground (arith, before-asym s t)

pub before-ne : (s t : Bytes) → before s t ≡ true → equal t s ≡ false
unfolding before equal
before-ne [] [] h = absurd (cc)
before-ne [] (d ∷ t) h = refl
before-ne (c ∷ s) [] h = absurd (cc)
before-ne (c ∷ s) (d ∷ t) h = ground (arith, before-ne s t)

-- Of two keys that differ one stands before the other.
before_or : (s t : Bytes) → before t s ≡ false → equal t s ≡ false → before s t ≡ true
unfolding before equal
before_or [] [] h k = absurd (cc)
before_or [] (d ∷ t) h k = refl
before_or (c ∷ s) [] h k = absurd (cc)
before_or (c ∷ s) (d ∷ t) h k = ground (arith, before_or s t)

abbrev pub Dict {ℓ} : Type ℓ → Type ℓ
Dict V = List (Bytes × V)

module _ {ℓ} {V : Type ℓ} where
  -- `m[k] = v`
  unfoldable pub put : Bytes → V → Dict V → Dict V
  put k v [] = (k, v) ∷ []
  put k v ((j, w) ∷ m) =
      if before k j
      then (k, v) ∷ (j, w) ∷ m
      else if equal k j
      then (k, v) ∷ m
      else (j, w) ∷ put k v m

  -- All keys stand before `k`.
  abbrev pub AllBefore : Dict V → Bytes → Type 0
  AllBefore [] k = Unit
  AllBefore ((j, w) ∷ m) k = (before j k ≡ true) × AllBefore m k

  -- Each key stands before the next.
  abbrev pub StartsBehind : Bytes → Dict V → Type 0
  StartsBehind k [] = Unit
  StartsBehind k ((j, w) ∷ m) = before k j ≡ true

  abbrev pub IsAscending : Dict V → Type 0
  IsAscending [] = Unit
  IsAscending ((k, v) ∷ m) = StartsBehind k m × IsAscending m

  pub put-last : (k : Bytes) (v : V) (m : Dict V) → AllBefore m k → put k v m ≡ m ++ (k, v) ∷ []
  unfolding put
  put-last k v [] h = refl
  put-last k v ((j, w) ∷ m) h = ground (arith, before-asym j k, before-ne j k, put-last k v m)

  pub AllBefore-concat :
      (m : Dict V) (j k : Bytes) (v : V)
      → before j k ≡ true
      → AllBefore m j
      → AllBefore (m ++ (j, v) ∷ []) k
  AllBefore-concat [] j k v h a = (h, tt)
  AllBefore-concat ((i, w) ∷ m) j k v h a =
      (before_trans i j k a.0 h, AllBefore-concat m j k v h a.1)

  StartsBehind-put :
      (j k : Bytes) (v : V) (m : Dict V)
      → before j k ≡ true
      → StartsBehind j m
      → StartsBehind j (put k v m)
  unfolding put
  StartsBehind-put j k v [] h a = h
  StartsBehind-put j k v ((i, w) ∷ m) h a = ground (arith, equal_iff k i)

  -- Storing a key keeps the order.
  pub put-IsAscending : (k : Bytes) (v : V) (m : Dict V) → IsAscending m → IsAscending (put k v m)
  unfolding put
  put-IsAscending k v [] a = (tt, tt)
  put-IsAscending k v ((j, w) ∷ m) a =
      ground (arith, equal_iff k j, before_or j k, StartsBehind-put j k v m, put-IsAscending k v m)
