-- ===== src/Json.antt =====
-- `json.Marshal` of a string, as Go's encoder writes it with its default HTML escaping.
pub mod Maps
pub mod Values
pub mod Kept
pub mod RoundTrip
use zdash.Prelude.{
  ℕ, ◌+◌, ◌-◌, ◌/◌, ◌%◌, ◌||◌, [], ◌∷◌, ◌++◌, ltb, ◌==◌, if◌then◌else◌, Bytes, codes,
}

hex_digit : ℕ → ℕ
hex_digit n = if ltb n 10 then b'0' + n else b'a' + (n - 10)

unicode_escape : ℕ → Bytes
unicode_escape c =
    codes "\\u"
    ++ (hex_digit (c / 4096 % 16)
        ∷ hex_digit (c / 256 % 16)
        ∷ hex_digit (c / 16 % 16)
        ∷ hex_digit (c % 16)
        ∷ [])

-- one character of a JSON string
pub escape_char : ℕ → Bytes
unfolding unicode_escape hex_digit
escape_char c =
    if c == b'"'
    then codes "\\\""
    else if c == b'\\'
    then codes "\\\\"
    else if c == 8
    then codes "\\b"
    else if c == 12
    then codes "\\f"
    else if c == 10
    then codes "\\n"
    else if c == 13
    then codes "\\r"
    else if c == 9
    then codes "\\t"
    else if ltb c 32 || c == b'<' || c == b'>' || c == b'&' || c == 0x2028 || c == 0x2029
    then unicode_escape c
    else c ∷ []

escape_all : Bytes → Bytes
escape_all [] = []
escape_all (c ∷ s) = escape_char c ++ escape_all s

unfoldable pub quoted : Bytes → Bytes
unfolding escape_all escape_char
quoted s = b'"' ∷ (escape_all s ++ b'"' ∷ [])
