-- ===== src/Text/Fields.antt =====
-- The fields of a text are not empty.
use mathlib.Core.List.{reverse, reverse-cons}
use zdash.Prelude.{ℕ, ◌≢◌, sym, ◌∙◌, List, [], ◌∷◌, ◌++◌, Bytes, All, Bool-cases, inl, inr}
use zdash.Text.{is_space, push_field, fields_onto, fields}

concat-ne-nil : (s : Bytes) (c : ℕ) → s ++ c ∷ [] ≢ []
concat-ne-nil [] c e = cc
concat-ne-nil (d ∷ s) c e = cc

push_field-All :
    (piece : Bytes) (rest : List Bytes)
    → All (λ w. w ≢ []) rest
    → All (λ w. w ≢ []) (push_field piece rest)
unfolding push_field
push_field-All [] rest h = h
push_field-All (c ∷ piece) rest h =
    (λ e. concat-ne-nil (reverse piece) c (sym (reverse-cons c piece) ∙ e), h)

fields_onto-All : (s piece : Bytes) → All (λ w. w ≢ []) (fields_onto s piece)
unfolding fields_onto
fields_onto-All [] piece = push_field-All piece [] tt
fields_onto-All (c ∷ s) piece = elim (Bool-cases (is_space c)) [
  | inl space ↦
      rw (space, fields_onto) (push_field-All piece (fields_onto s []) (fields_onto-All s []))
  | inr letter ↦ rw (letter, fields_onto) (fields_onto-All s (c ∷ piece))
]

pub fields-All : (s : Bytes) → All (λ w. w ≢ []) (fields s)
unfolding fields
fields-All s = fields_onto-All s []
