-- ===== src/Text/Search.antt =====
-- What `CutPrefix` and `Cut` find.
use mathlib.Core.List.{reverse, reverse-append}
use zdash.Prelude.{
  ℕ, ◌≡◌, ◌≢◌, refl, ap, ◌∙◌, [], ◌∷◌, ◌++◌, append_assoc, none, some, Bytes, arith, Option-cases,
  inl, inr,
}
use zdash.Text.{cut_prefix, cut_onto, cut}

pub cut_prefix-append : (p s : Bytes) → cut_prefix (p ++ s) p ≡ some s
unfolding cut_prefix
cut_prefix-append [] s = refl
cut_prefix-append (c ∷ p) s = ground (arith, cut_prefix-append p s)

cut_prefix-found : (s p rest : Bytes) → cut_prefix s p ≡ some rest → s ≡ p ++ rest
unfolding cut_prefix
cut_prefix-found s [] rest h = ground arith
cut_prefix-found [] (d ∷ p) rest h = absurd (cc)
cut_prefix-found (c ∷ s) (d ∷ p) rest h = ground (arith, cut_prefix-found s p rest)

reverse-cons-append :
    (c : ℕ) (before s : Bytes) → reverse (c ∷ before) ++ s ≡ reverse before ++ c ∷ s
reverse-cons-append c before s =
    ap (λ t. t ++ s) (reverse-append (c ∷ []) before) ∙ append_assoc (reverse before) (c ∷ []) s

cut_onto-found :
    (sep before s : Bytes) {a b : Bytes}
    → cut_onto sep before s ≡ some (a, b)
    → reverse before ++ s ≡ a ++ (sep ++ b)
unfolding cut_onto
cut_onto-found sep before [] h = elim (Option-cases (cut_prefix [] sep)) [
  | inl e ↦ ground (arith, rw (e, cut_onto) at h)
  | inr (rest, e) ↦ ground (arith, rw (e, cut_onto) at h, cut_prefix-found [] sep rest e)
]
cut_onto-found sep before (c ∷ s) h = elim (Option-cases (cut_prefix (c ∷ s) sep)) [
  | inl e ↦ ground (
    arith,
    cut_onto-found sep (c ∷ before) s (rw (e, cut_onto) at h),
    reverse-cons-append c before s,
  )
  | inr (rest, e) ↦ ground (arith, rw (e, cut_onto) at h, cut_prefix-found (c ∷ s) sep rest e)
]

-- The two texts of a cut, with the separator between them, are the whole text.
pub cut-found : (s sep : Bytes) {a b : Bytes} → cut s sep ≡ some (a, b) → s ≡ a ++ (sep ++ b)
unfolding cut
cut-found s sep h = cut_onto-found sep [] s h

cut_onto-none :
    (sep before s : Bytes) → cut_onto sep before s ≡ none → (p q : Bytes) → s ≢ p ++ (sep ++ q)
unfolding cut_onto
cut_onto-none sep before [] h [] q e = elim (Option-cases (cut_prefix [] sep)) [
  | inl n ↦ ground (arith, cut_prefix-append sep q)
  | inr (rest, f) ↦ ground (arith, rw (f, cut_onto) at h)
]
cut_onto-none sep before [] h (c ∷ p) q e = absurd (cc)
cut_onto-none sep before (c ∷ s) h [] q e = elim (Option-cases (cut_prefix (c ∷ s) sep)) [
  | inl n ↦ absurd (cc (n, e, cut_prefix-append sep q))
  | inr (rest, f) ↦ ground (arith, rw (f, cut_onto) at h)
]
cut_onto-none sep before (c ∷ s) h (d ∷ p) q e = elim (Option-cases (cut_prefix (c ∷ s) sep)) [
  | inl n ↦ ground (arith, cut_onto-none sep (c ∷ before) s (rw (n, cut_onto) at h) p q)
  | inr (rest, f) ↦ ground (arith, rw (f, cut_onto) at h)
]

-- Where `Cut` finds nothing the separator stands nowhere.
pub cut-none : (s sep : Bytes) → cut s sep ≡ none → (p q : Bytes) → s ≢ p ++ (sep ++ q)
unfolding cut
cut-none s sep h = cut_onto-none sep [] s h
