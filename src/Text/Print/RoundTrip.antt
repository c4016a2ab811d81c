-- ===== src/Text/Print/RoundTrip.antt =====
-- What `ParseUint` and `ParseInt` read of a printed number.
use Prim.Native.Nat.{zero, suc}
use zdash.Prelude.{
  ℕ, ◌+◌, ◌/◌, ◌%◌, ◌^◌, ◌<◌, ◌≤◌, ◌≡◌, ◌≢◌, refl, ◌∙◌, [], ◌∷◌, some, ltb, Bytes, arith,
  Bool-cases, inl, inr,
}
use zdash.Prelude.Int.{ℤ, pos, negsuc}
use zdash.Text.Print.{itoa}
use zdash.Text.Numbers.{parse_int, digits_onto, parse_digits, parse_uint}
use zdash.Text.Print.{digits_of, format_uint}

digits_onto-last :
    (n : ℕ) (out : Bytes) → digits_onto ((b'0' + n % 10) ∷ out) (n / 10) ≡ digits_onto out n
unfolding digits_onto
digits_onto-last n out = ground arith

-- Reading the digits of `n` in front of `out` comes to reading `out` behind `n`.
digits_onto-digits_of :
    (fuel n : ℕ) (out : Bytes) → n < fuel → digits_onto (digits_of fuel n out) 0 ≡ digits_onto out n
unfolding digits_of
digits_onto-digits_of zero n out h = absurd (omega arith)
digits_onto-digits_of (suc fuel) n out h = elim (Bool-cases (ltb n 10)) [
  | inl small ↦ rw small (unfold digits_onto in ground arith)
  | inr large ↦ rw large (
      digits_onto-digits_of fuel (n / 10) ((b'0' + n % 10) ∷ out) (ground arith)
      ∙ digits_onto-last n out)
]

digits_of-ne-nil : (fuel n : ℕ) (out : Bytes) → n < fuel → digits_of fuel n out ≢ []
unfolding digits_of
digits_of-ne-nil zero n out h = absurd (omega arith)
digits_of-ne-nil (suc fuel) n out h = elim (Bool-cases (ltb n 10)) [
  | inl small ↦ rw small (cc)
  | inr large ↦ rw large (digits_of-ne-nil fuel (n / 10) _ (ground arith))
]

parse_digits-ne : (s : Bytes) → s ≢ [] → parse_digits s ≡ digits_onto s 0
unfolding parse_digits
parse_digits-ne [] h = absurd (h refl)
parse_digits-ne (c ∷ s) h = refl

-- Every uint64 is read back from its decimal print.
pub parse_uint-format_uint : (n : ℕ) → n < 2 ^ 64 → parse_uint (format_uint n) ≡ some n
unfolding parse_uint format_uint
parse_uint-format_uint n h =
    rw
      (
        parse_digits-ne _ (digits_of-ne-nil (suc n) n [] (omega arith)),
        digits_onto-digits_of (suc n) n [] (omega arith),
      )
      (unfold digits_onto in ground arith)

-- The first digit is no sign.
digits_of-cons :
    (fuel n : ℕ) (out : Bytes)
    → n < fuel
    → (c : ℕ) × (s : Bytes) × (digits_of fuel n out ≡ c ∷ s) × (b'0' ≤ c)
unfolding digits_of
digits_of-cons zero n out h = absurd (omega arith)
digits_of-cons (suc fuel) n out h = elim (Bool-cases (ltb n 10)) [
  | inl small ↦ (b'0' + n, out, rw small refl, omega arith)
  | inr large ↦
      let (c, s, e, d) = digits_of-cons fuel (n / 10) ((b'0' + n % 10) ∷ out) (ground arith) in
      (c, s, rw large e, d)
]

parse_digits-format_uint : (n : ℕ) → parse_digits (format_uint n) ≡ some n
unfolding format_uint
parse_digits-format_uint n =
    rw
      (
        parse_digits-ne _ (digits_of-ne-nil (suc n) n [] (omega arith)),
        digits_onto-digits_of (suc n) n [] (omega arith),
      )
      (unfold digits_onto in refl)

-- The numbers of `int64`.
abbrev pub IsInt64 : ℤ → Type 0
IsInt64 (pos n) = n < 2 ^ 63
IsInt64 (negsuc n) = n < 2 ^ 63

-- Every int64 is read back from its decimal print.
pub parse_int-itoa : (n : ℤ) → IsInt64 n → parse_int (itoa n) ≡ some n
unfolding parse_int itoa
parse_int-itoa (pos n) h =
    let (c, s, e, d) = digits_of-cons (suc n) n [] (omega arith) in
    let printed : format_uint n ≡ c ∷ s = unfold format_uint in e in
    rw printed (ground (arith, parse_digits-format_uint n, printed))
parse_int-itoa (negsuc n) h = ground (arith, parse_digits-format_uint (suc n))
