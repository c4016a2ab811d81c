-- ===== src/Text/Numbers.antt =====
-- `strconv.ParseUint(s, 10, 64)`, `strconv.Atoi`, `strconv.ParseInt(s, 10, 64)` and `strconv.Itoa`.
use zdash.Prelude.{
  ℕ, ◌+◌, ◌-◌, ◌*◌, ◌^◌, Bool, ◌&&◌, [], ◌∷◌, Option, none, some, leb, ◌==◌, if◌then◌else◌, Bytes,
}
use zdash.Prelude.Int.{ℤ, pos, negsuc}

unfoldable pub is_digit : ℕ → Bool
is_digit c = leb b'0' c && leb c b'9'

-- The number that decimal digits spell behind `n`, or `none` at another character.
unfoldable pub digits_onto : Bytes → ℕ → Option ℕ
unfolding is_digit
digits_onto [] n = some n
digits_onto (c ∷ s) n = if is_digit c then digits_onto s (n * 10 + (c - b'0')) else none

-- An empty text is a syntax error.
unfoldable pub parse_digits : Bytes → Option ℕ
unfolding digits_onto
parse_digits [] = none
parse_digits (c ∷ s) = digits_onto (c ∷ s) 0

unfoldable pub at_most : ℕ → Option ℕ → Option ℕ
at_most limit none = none
at_most limit (some n) = if leb n limit then some n else none

-- A value that does not fit is a range error.
unfoldable pub parse_uint : Bytes → Option ℕ
unfolding parse_digits at_most
parse_uint s = at_most (2 ^ 64 - 1) (parse_digits s)

unfoldable pub negated : Option ℕ → Option ℤ
negated none = none
negated (some n) = if n == 0 then some (pos 0) else some (negsuc (n - 1))

unfoldable pub positive : Option ℕ → Option ℤ
positive none = none
positive (some n) = some (pos n)

-- One sign is accepted; the range is that of `int64`.
unfoldable pub parse_int : Bytes → Option ℤ
unfolding parse_digits at_most negated positive
parse_int [] = none
parse_int (c ∷ s) =
    if c == b'-'
    then negated (at_most (2 ^ 63) (parse_digits s))
    else if c == b'+'
    then positive (at_most (2 ^ 63 - 1) (parse_digits s))
    else positive (at_most (2 ^ 63 - 1) (parse_digits (c ∷ s)))

-- `int` has 64 bits.
abbrev pub atoi : Bytes → Option ℤ
atoi = parse_int
