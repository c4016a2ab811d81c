-- ===== src/Text.antt =====
-- The functions of Go's `strings` and `strconv` that the source calls, on lists of code points.
pub mod Numbers
pub mod Print
pub mod Search
pub mod Fields
mod Tests
use mathlib.Core.List.{reverse}
use zdash.Prelude.{
  ℕ, Bool, true, false, ◌&&◌, ◌||◌, List, [], ◌∷◌, ◌++◌, Option, none, some, leb, ◌==◌,
  if◌then◌else◌, Bytes, equal,
}

-- `unicode.IsSpace`
unfoldable pub is_space : ℕ → Bool
is_space c =
    (leb 9 c && leb c 13)
    || c == 32
    || c == 0x85
    || c == 0xa0
    || c == 0x1680
    || (leb 0x2000 c && leb c 0x200a)
    || c == 0x2028
    || c == 0x2029
    || c == 0x202f
    || c == 0x205f
    || c == 0x3000

unfoldable pub drop_while : (ℕ → Bool) → Bytes → Bytes
drop_while p [] = []
drop_while p (c ∷ s) = elim (p c) [ true ↦ drop_while p s | false ↦ c ∷ s ]

-- `strings.TrimFunc`
unfoldable pub trim_func : (ℕ → Bool) → Bytes → Bytes
unfolding drop_while
trim_func p s = reverse (drop_while p (reverse (drop_while p s)))

-- `strings.TrimSpace`
unfoldable pub trim_space : Bytes → Bytes
unfolding trim_func is_space
trim_space = trim_func is_space

-- `strings.Split` and `strings.SplitSeq` at one separator byte: one piece more than separators.
unfoldable pub split_onto : ℕ → Bytes → Bytes → List Bytes
split_onto sep [] piece = reverse piece ∷ []
split_onto sep (c ∷ s) piece = elim (c == sep) [
  | true ↦ reverse piece ∷ split_onto sep s []
  | false ↦ split_onto sep s (c ∷ piece)
]

unfoldable pub split : ℕ → Bytes → List Bytes
unfolding split_onto
split sep s = split_onto sep s []

push_field : Bytes → List Bytes → List Bytes
push_field [] rest = rest
push_field (c ∷ piece) rest = reverse (c ∷ piece) ∷ rest

fields_onto : Bytes → Bytes → List Bytes
unfolding push_field
fields_onto [] piece = push_field piece []
fields_onto (c ∷ s) piece = elim (is_space c) [
  | true ↦ push_field piece (fields_onto s [])
  | false ↦ fields_onto s (c ∷ piece)
]

-- `strings.Fields`
unfoldable pub fields : Bytes → List Bytes
unfolding fields_onto is_space
fields s = fields_onto s []

-- `strings.CutPrefix`: the text behind the prefix, or `none`.
unfoldable pub cut_prefix : Bytes → Bytes → Option Bytes
cut_prefix s [] = some s
cut_prefix [] (p ∷ prefix) = none
cut_prefix (c ∷ s) (p ∷ prefix) = if c == p then cut_prefix s prefix else none

-- `strings.HasPrefix`
unfoldable pub has_prefix : Bytes → Bytes → Bool
unfolding cut_prefix
has_prefix s prefix = elim (cut_prefix s prefix) [ none ↦ false | some _ ↦ true ]

-- `strings.HasSuffix`
unfoldable pub has_suffix : Bytes → Bytes → Bool
unfolding has_prefix
has_suffix s suffix = has_prefix (reverse s) (reverse suffix)

-- `strings.TrimSuffix`
unfoldable pub trim_suffix : Bytes → Bytes → Bytes
unfolding cut_prefix
trim_suffix s suffix = elim (cut_prefix (reverse s) (reverse suffix)) [
  | none ↦ s
  | some rest ↦ reverse rest
]

cut_onto : Bytes → Bytes → Bytes → Option (Bytes × Bytes)
cut_onto sep before [] = elim (cut_prefix [] sep) [
  | none ↦ none
  | some after ↦ some (reverse before, after)
]
cut_onto sep before (c ∷ s) = elim (cut_prefix (c ∷ s) sep) [
  | none ↦ cut_onto sep (c ∷ before) s
  | some after ↦ some (reverse before, after)
]

-- `strings.Cut`: the texts around the first separator, or `none`.
unfoldable pub cut : Bytes → Bytes → Option (Bytes × Bytes)
unfolding cut_onto cut_prefix
cut s sep = cut_onto sep [] s

-- `strings.Contains`
unfoldable pub contains : Bytes → Bytes → Bool
unfolding cut
contains s sub = elim (cut s sub) [ none ↦ false | some _ ↦ true ]

-- `strings.Join`
unfoldable pub join : List Bytes → Bytes → Bytes
join [] sep = []
join (x ∷ []) sep = x
join (x ∷ y ∷ xs) sep = x ++ (sep ++ join (y ∷ xs) sep)
