-- ===== src/Table.antt =====
-- Go's maps with string keys, as association lists in which the first entry of a key counts.
use text.Mathlib.Text.{◌==◌ as str_eq}
use text.Mathlib.TextEquality.{eq_iff}
use Prim.Native.String.{String}
use zdash.Prelude.{◌≡◌, List, [], ◌∷◌, Option, none, some, if◌then◌else◌, arith}

abbrev pub Table {ℓ} : Type ℓ → Type ℓ
Table V = List (String × V)

module _ {ℓ} {V : Type ℓ} where
  -- `m[k]`, with its second result
  unfoldable pub find : String → Table V → Option V
  find k [] = none
  find k ((j, v) ∷ m) = if str_eq j k then some v else find k m

  -- `delete(m, k)`
  unfoldable pub delete : String → Table V → Table V
  delete k [] = []
  delete k ((j, v) ∷ m) = if str_eq j k then delete k m else (j, v) ∷ delete k m

  -- `m[k] = v`
  unfoldable pub put : String → V → Table V → Table V
  unfolding delete
  put k v m = (k, v) ∷ delete k m

  pub find-delete :
      (k j : String) (m : Table V) → find j (delete k m) ≡ (if str_eq k j then none else find j m)
  unfolding find delete
  find-delete k j [] = ground arith
  find-delete k j ((key, value) ∷ m) =
      ground (find-delete k j m, arith, eq_iff key j, eq_iff key k, eq_iff k j)

  pub find-put :
      (k j : String) (v : V) (m : Table V)
      → find j (put k v m) ≡ (if str_eq k j then some v else find j m)
  unfolding find put
  find-put k j v m = ground (arith, find-delete k j m)
