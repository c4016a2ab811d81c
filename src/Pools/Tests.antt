-- ===== src/Pools/Tests.antt =====
-- A pool of one nested vdev, as zpool gives it and as the API serves it.
use zdash.Prelude.{◌≡◌, refl, [], ◌∷◌, none, some, Bytes, codes, equal, if◌then◌else◌}
use zdash.Prelude.Int.{pos}
use zdash.Text.Numbers.{parse_int}
use zdash.Json.Maps.{put, before}
use zdash.Json.Values.{
  Json, null, number, text, object, end, member, decode_string, decode_int, decode_struct,
  decode_map, is_key,
}
use zdash.Pools.{
  VDevHead, vdev, nil_map, made, no_entry, entry, Pool, ZPoolOutput, no_properties, no_pool,
}
use zdash.Pools.Decode.{decode_output}
use zdash.Pools.Encode.{encode_output}
use zdash.Pools.Served.{unmarshal_output, marshal_output, served_pools}
use zdash.Produce.{Output, Coded, coded, produce_zpool}

abbrev state : Json
state = text (codes "ONLINE")

-- The members of an object in any order; the name is given in capitals, and `extra` is no field.
abbrev mirror : Json
mirror = object (
    member (codes "state") state (
      member (codes "vdevs")
        (object (
          member (codes "sdb") (object (member (codes "state") state end))
            (member (codes "sda") (object (member (codes "NAME") (text (codes "sda")) end)) end)))
        end))

abbrev listed : Json
listed = object (
    member (codes "output_version") (object (member (codes "vers_major") (number (codes "1")) end))
      (member (codes "extra") null (
        member (codes "pools")
          (object (
            member (codes "tank")
              (object (
                member (codes "name") (text (codes "tank"))
                  (member (codes "vdevs") (object (member (codes "mirror-0") mirror end)) end)))
              end))
          end)))

abbrev head : Bytes → Bytes → VDevHead
head n st = record {
  name = n;
  vdev_type = [];
  guid = [];
  class = [];
  state = st;
  path = [];
  properties = no_properties;
}

abbrev tank : Pool
tank = record no_pool {
  name = codes "tank";
  vdevs = made (
      entry (codes "mirror-0")
        (vdev (head [] (codes "ONLINE")) (
          made (
            entry (codes "sda") (vdev (head (codes "sda") []) nil_map)
              (entry (codes "sdb") (vdev (head [] (codes "ONLINE")) nil_map) no_entry))))
        no_entry);
}

abbrev shown : ZPoolOutput
shown = record {
  output_version = record { command = []; vers_major = pos 1; vers_minor = pos 0 };
  pools = some ((codes "tank", tank) ∷ []);
}

listed_is_shown : decode_output listed ≡ some shown
unfolding decode_output decode_struct is_key decode_int parse_int decode_map decode_string put
    before
listed_is_shown = refl

-- A syntax with two texts: what zpool gives, and what is served.
abbrev two_texts : Bytes → Coded Json
two_texts s = if equal s (codes "in") then coded listed else coded (encode_output shown)

abbrev written : Json → Bytes
written j = codes "out"

abbrev no_text : Json → Bytes
no_text j = []

abbrev zpool_gave : Output
zpool_gave = record { out = codes "in"; err = none }

zpool_gave_shown : unmarshal_output two_texts written no_text (codes "in") ≡ coded shown
unfolding unmarshal_output equal
zpool_gave_shown = rw listed_is_shown refl

served_pools_example :
    (body : Bytes) × (produce_zpool
        (unmarshal_output two_texts written no_text)
        (marshal_output two_texts written no_text)
        zpool_gave
      ≡ (body, 200))
    × (unmarshal_output two_texts written no_text body ≡ coded shown)
unfolding equal
served_pools_example =
    served_pools two_texts written no_text zpool_gave shown refl zpool_gave_shown refl
