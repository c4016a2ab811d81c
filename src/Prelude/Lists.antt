-- ===== src/Prelude/Lists.antt =====
-- Lists measured by native numbers, predicates on all members, and texts as lists of code points.
use Prim.Native.Char.{code}
use Prim.Native.Nat.{ℕ, suc, ◌+◌}
use Prim.Native.String.{String}
use mathlib.Core.Path.{◌≡◌, refl}
use mathlib.Core.Bool.{Bool, true, false}
use mathlib.Core.Logic.{◌↔◌}
use mathlib.Core.List.{List, [], ◌∷◌, ◌++◌}
use native.Mathlib.Omega.{arith}
use zdash.Prelude.Tests.{◌==◌, if◌then◌else◌}

module _ {ℓ} {A : Type ℓ} where
  abbrev pub length : List A → ℕ
  length [] = 0
  length (x ∷ xs) = suc (length xs)

  pub length-append : (xs ys : List A) → length (xs ++ ys) ≡ length xs + length ys
  length-append [] ys = omega arith
  length-append (x ∷ xs) ys = omega (arith, length-append xs ys)

module _ {ℓ κ} {A : Type ℓ} (P : A → Type κ) where
  abbrev pub All : List A → Type κ
  All [] = Unit
  All (x ∷ xs) = P x × All xs

-- One member of a list, and the others.
pub data Pick {ℓ} {A : Type ℓ} (a : A) : List A → List A → Type ℓ where
  head : {xs : List A} → Pick a (a ∷ xs) xs
  next : {x : A} {xs ys : List A} → Pick a xs ys → Pick a (x ∷ xs) (x ∷ ys)

pub Pick-length {ℓ} :
    {A : Type ℓ} {a : A} {xs ys : List A} → Pick a xs ys → length xs ≡ suc (length ys)
Pick-length head = omega arith
Pick-length (next p) = omega (arith, Pick-length p)

pub All-Pick {ℓ κ} :
    {A : Type ℓ} (P : A → Type κ) {a : A} {xs ys : List A}
    → Pick a xs ys
    → All P xs
    → P a × All P ys
All-Pick P head h = h
All-Pick P (next p) (hx, h) = let (ha, hy) = All-Pick P p h in (ha, (hx, hy))

pub All-mono {ℓ κ} :
    {A : Type ℓ} (P Q : A → Type κ) (xs : List A) → ((a : A) → P a → Q a) → All P xs → All Q xs
All-mono P Q [] f h = tt
All-mono P Q (x ∷ xs) f (hx, h) = (f x hx, All-mono P Q xs f h)

-- A text: its code points. A byte that is no valid UTF-8 counts as one code point of its own.
abbrev pub Bytes : Type 0
Bytes = List ℕ

abbrev pub codes : String → Bytes
codes String.[] = []
codes (String.◌∷◌ letter text) = code letter ∷ codes text

-- `s == t` on strings.
unfoldable pub equal : Bytes → Bytes → Bool
equal [] t = elim t [ [] ↦ true | d ∷ t' ↦ false ]
equal (c ∷ s) [] = false
equal (c ∷ s) (d ∷ t) = if c == d then equal s t else false

pub equal_iff : (s t : Bytes) → (equal s t ≡ true) ↔ (s ≡ t)
unfolding equal
equal_iff [] [] = ground arith
equal_iff [] (d ∷ t) = ground arith
equal_iff (c ∷ s) [] = ground arith
equal_iff (c ∷ s) (d ∷ t) = ground (equal_iff s t, arith)

pub equal_refl : (a : Bytes) → equal a a ≡ true
equal_refl a = (equal_iff a a).1 refl

-- how often a number stands in a list
abbrev pub count : ℕ → List ℕ → ℕ
count c [] = 0
count c (d ∷ ds) = (if d == c then 1 else 0) + count c ds

pub count-append : (c : ℕ) (xs ys : List ℕ) → count c (xs ++ ys) ≡ count c xs + count c ys
count-append c [] ys = omega arith
count-append c (d ∷ xs) ys = omega (arith, count-append c xs ys)

pub count-Pick :
    (c : ℕ) {d : ℕ} {xs ys : List ℕ}
    → Pick d xs ys
    → count c xs ≡ (if d == c then 1 else 0) + count c ys
count-Pick c head = refl
count-Pick c (next p) = omega (arith, count-Pick c p)
