-- ===== src/Json/Values.antt =====
-- JSON values, and what `json.Marshal` and `json.Unmarshal` make of strings, integers, maps and structs.
use zdash.Prelude.{
  ℕ, ◌-◌, Bool, ◌&&◌, [], ◌∷◌, Option, none, some, leb, ◌==◌, if◌then◌else◌, Bytes, equal, map,
}
use zdash.Prelude.Int.{ℤ}
use zdash.Text.Numbers.{parse_int}
use zdash.Text.Print.{itoa}
use zdash.Json.Maps.{Dict, put}

mutual
  -- A number is its literal.
  pub data Json : Type 0 where
    null : Json
    bool : Bool → Json
    number : Bytes → Json
    text : Bytes → Json
    array : Items → Json
    object : Members → Json

  pub data Items : Type 0 where
    nil : Items
    item : Json → Items → Items

  pub data Members : Type 0 where
    end : Members
    member : Bytes → Json → Members → Members

-- The folding under which a member's key names a field: the case of ASCII letters, and the two
-- other characters that fold onto them.
fold_char : ℕ → ℕ
fold_char c =
    if leb b'a' c && leb c b'z'
    then c - 32
    else if c == 0x17f
    then b'S'
    else if c == 0x212a
    then b'K'
    else c

unfoldable pub is_key : Bytes → Bytes → Bool
unfolding fold_char equal
is_key key tag = equal (map fold_char key) (map fold_char tag)

-- A `string` field: null leaves it as it is.
unfoldable pub decode_string : Json → Bytes → Option Bytes
decode_string null s = some s
decode_string (text t) s = some t
decode_string _ s = none

-- An `int` field.
unfoldable pub decode_int : Json → ℤ → Option ℤ
decode_int null n = some n
decode_int (number literal) n = parse_int literal
decode_int _ n = none

abbrev pub and_then {ℓ κ} : {A : Type ℓ} {B : Type κ} → Option A → (A → Option B) → Option B
and_then none f = none
and_then (some a) f = f a

-- A struct, at what a member does to it: its members in turn, onto what it holds.
unfoldable pub set_fields {ℓ} :
    {S : Type ℓ} → (Bytes → Json → S → Option S) → Members → S → Option S
set_fields field end s = some s
set_fields field (member key j ms) s = and_then (field key j s) (λ s'. set_fields field ms s')

unfoldable pub decode_struct {ℓ} :
    {S : Type ℓ} → (Bytes → Json → S → Option S) → Json → S → Option S
unfolding set_fields
decode_struct field null s = some s
decode_struct field (object ms) s = set_fields field ms s
decode_struct field _ s = none

module _ {ℓ} {V : Type ℓ} where
  -- A map, at the decoder of a new element: null makes it nil, an object adds to what it holds.
  unfoldable pub put_members : (Json → Option V) → Members → Dict V → Option (Dict V)
  put_members elem end m = some m
  put_members elem (member key j ms) m = and_then (elem j) (λ v. put_members elem ms (put key v m))

  or_made : Option (Dict V) → Dict V
  or_made none = []
  or_made (some m) = m

  unfoldable pub decode_map : (Json → Option V) → Json → Option (Dict V) → Option (Option (Dict V))
  unfolding put_members or_made
  decode_map elem null m = some none
  decode_map elem (object ms) m = and_then (put_members elem ms (or_made m)) (λ m'. some (some m'))
  decode_map elem _ m = none

  unfoldable pub encode_members : (V → Json) → Dict V → Members
  encode_members encode [] = end
  encode_members encode ((k, v) ∷ m) = member k (encode v) (encode_members encode m)

  unfoldable pub encode_map : (V → Json) → Option (Dict V) → Json
  unfolding encode_members
  encode_map encode none = null
  encode_map encode (some m) = object (encode_members encode m)

unfoldable pub encode_int : ℤ → Json
encode_int n = number (itoa n)
