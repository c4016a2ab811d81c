-- ===== src/Text/Print.antt =====
-- `%d` of an unsigned number, and of a signed one.
pub mod RoundTrip
use Prim.Native.Nat.{zero, suc}
use zdash.Prelude.Int.{ℤ, pos, negsuc}
use zdash.Prelude.{
  ℕ, ◌+◌, ◌*◌, ◌/◌, ◌%◌, ◌<◌, ◌≤◌, ◌≡◌, refl, List, [], ◌∷◌, ◌++◌, ltb, if◌then◌else◌, Bytes, arith,
}

-- The decimal digits of `n` in front of `out`; each round drops one digit.
unfoldable pub digits_of : ℕ → ℕ → Bytes → Bytes
digits_of zero n out = out
digits_of (suc fuel) n out =
    let more = digits_of fuel (n / 10) ((b'0' + n % 10) ∷ out) in
    if ltb n 10 then (b'0' + n) ∷ out else more

-- A number has no more digits than its value and one.
unfoldable pub format_uint : ℕ → Bytes
unfolding digits_of
format_uint n = digits_of (suc n) n []

-- `strconv.Itoa`
unfoldable pub itoa : ℤ → Bytes
unfolding format_uint
itoa (pos n) = format_uint n
itoa (negsuc n) = b'-' ∷ format_uint (suc n)
