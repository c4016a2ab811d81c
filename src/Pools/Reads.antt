-- ===== src/Pools/Reads.antt =====
-- What `json.Unmarshal` makes of the output of zpool has its maps in order, at every depth.
pub mod Vdevs
pub mod Output
use zdash.Prelude.{
  ◌≡◌, true, false, [], ◌∷◌, Option, none, some, Bytes, codes, All, ltb, leb, arith,
}
use zdash.Prelude.Int.{ℤ, pos, negsuc}
use zdash.Text.Numbers.{parse_int, at_most, negated, positive, parse_digits}
use zdash.Text.Print.RoundTrip.{IsInt64}
use zdash.Json.Maps.{Dict, IsAscending}
use zdash.Json.Values.{
  Json, null, bool, number, text, array, object, Members, end, member, is_key, decode_string,
  decode_int, decode_struct, decode_map,
}
use zdash.Json.Kept.{
  Holds, Holds-mono, any-Holds, at-Holds, some-Holds, field-Holds, plain-Holds, decode_struct-Holds,
  Sound, decode_map-Holds,
}
use zdash.Pools.{Prop, PoolProperties, OutputVersion, ZPoolOutput, no_output}
use zdash.Pools.Order.{IsOrderedMap, IsOrderedProp, IsOrderedProperties, IsOrderedOutput}
use zdash.Pools.Decode.{prop_field, decode_prop, properties_field, decode_properties, decode_output}

abbrev AnyText : Bytes → Type 0
AnyText s = Unit

any_text : (m : Dict Bytes) → All (λ e. AnyText e.1) m
any_text [] = tt
any_text (e ∷ m) = (tt, any_text m)

texts-Sound : (m : Option (Dict Bytes)) → IsOrderedMap m → Sound (AnyText) m
texts-Sound none h = tt
texts-Sound (some m) h = (h, any_text m)

sound-IsOrderedMap : (m : Option (Dict Bytes)) → Sound (AnyText) m → IsOrderedMap m
sound-IsOrderedMap none h = tt
sound-IsOrderedMap (some m) h = h.0

-- What is bound by a field of text keeps what the other fields hold.
texts-Holds :
    (j : Json) (m : Option (Dict Bytes))
    → IsOrderedMap m
    → Holds IsOrderedMap (decode_map (λ e. decode_string e []) j m)
texts-Holds j m h =
    Holds-mono (Sound (AnyText)) IsOrderedMap _ sound-IsOrderedMap (
      decode_map-Holds (AnyText) (λ e. decode_string e []) (λ e. any-Holds _) j m (texts-Sound m h))

prop_field-Holds :
    (key : Bytes) (j : Json) (p : Prop) → IsOrderedProp p → Holds IsOrderedProp (prop_field key j p)
unfolding prop_field
prop_field-Holds key j p h =
    plain-Holds IsOrderedProp _ (decode_string j p.value) _ _ (λ s. h)
      (field-Holds IsOrderedMap IsOrderedProp _ (decode_map (λ e. decode_string e []) j p.source) _
        _ (texts-Holds j p.source h) (λ m h'. h') (some-Holds _ p h))

prop-Holds : (j : Json) (p : Prop) → IsOrderedProp p → Holds IsOrderedProp (decode_prop j p)
unfolding decode_prop
prop-Holds = decode_struct-Holds IsOrderedProp prop_field prop_field-Holds

properties_field-Holds :
    (key : Bytes) (j : Json) (p : PoolProperties)
    → IsOrderedProperties p
    → Holds IsOrderedProperties (properties_field key j p)
unfolding properties_field
properties_field-Holds key j p (o0, o1, o2, o3, o4, o5, o6, o7, o8, o9) =
    field-Holds IsOrderedProp IsOrderedProperties _ (decode_prop j p.size)
      (λ q. record p { size = q }) _ (prop-Holds j p.size o0)
      (λ q h. (h, o1, o2, o3, o4, o5, o6, o7, o8, o9))
      (field-Holds IsOrderedProp IsOrderedProperties _ (decode_prop j p.allocated)
        (λ q. record p { allocated = q }) _ (prop-Holds j p.allocated o1)
        (λ q h. (o0, h, o2, o3, o4, o5, o6, o7, o8, o9))
        (field-Holds IsOrderedProp IsOrderedProperties _ (decode_prop j p.free)
          (λ q. record p { free = q }) _ (prop-Holds j p.free o2)
          (λ q h. (o0, o1, h, o3, o4, o5, o6, o7, o8, o9))
          (field-Holds IsOrderedProp IsOrderedProperties _ (decode_prop j p.checkpoint)
            (λ q. record p { checkpoint = q }) _ (prop-Holds j p.checkpoint o3)
            (λ q h. (o0, o1, o2, h, o4, o5, o6, o7, o8, o9))
            (field-Holds IsOrderedProp IsOrderedProperties _ (decode_prop j p.expand_size)
              (λ q. record p { expand_size = q }) _ (prop-Holds j p.expand_size o4)
              (λ q h. (o0, o1, o2, o3, h, o5, o6, o7, o8, o9))
              (field-Holds IsOrderedProp IsOrderedProperties _ (decode_prop j p.fragmentation)
                (λ q. record p { fragmentation = q }) _ (prop-Holds j p.fragmentation o5)
                (λ q h. (o0, o1, o2, o3, o4, h, o6, o7, o8, o9))
                (field-Holds IsOrderedProp IsOrderedProperties _ (decode_prop j p.capacity)
                  (λ q. record p { capacity = q }) _ (prop-Holds j p.capacity o6)
                  (λ q h. (o0, o1, o2, o3, o4, o5, h, o7, o8, o9))
                  (field-Holds IsOrderedProp IsOrderedProperties _ (decode_prop j p.dedup_ratio)
                    (λ q. record p { dedup_ratio = q }) _ (prop-Holds j p.dedup_ratio o7)
                    (λ q h. (o0, o1, o2, o3, o4, o5, o6, h, o8, o9))
                    (field-Holds IsOrderedProp IsOrderedProperties _ (decode_prop j p.health)
                      (λ q. record p { health = q }) _ (prop-Holds j p.health o8)
                      (λ q h. (o0, o1, o2, o3, o4, o5, o6, o7, h, o9))
                      (field-Holds IsOrderedProp IsOrderedProperties _ (decode_prop j p.alt_root)
                        (λ q. record p { alt_root = q }) _ (prop-Holds j p.alt_root o9)
                        (λ q h. (o0, o1, o2, o3, o4, o5, o6, o7, o8, h))
                        (some-Holds _ p (o0, o1, o2, o3, o4, o5, o6, o7, o8, o9)))))))))))

pub properties-Holds :
    (j : Json) (p : PoolProperties)
    → IsOrderedProperties p
    → Holds IsOrderedProperties (decode_properties j p)
unfolding decode_properties
properties-Holds = decode_struct-Holds IsOrderedProperties properties_field properties_field-Holds
