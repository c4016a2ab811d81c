-- ===== src/Pools/Decode.antt =====
-- The pools as `json.Unmarshal` reads them.
use zdash.Prelude.{[], ◌∷◌, Option, none, some, if◌then◌else◌, Bytes, codes}
use zdash.Json.Maps.{Dict, put}
use zdash.Json.Values.{
  Json, null, object, Members, end, member, is_key, decode_string, decode_int, and_then,
  decode_struct, decode_map,
}
use zdash.Pools.{
  Prop, PoolProperties, VDevHead, VDev, vdev, VDevMap, nil_map, made, VDevEntries, no_entry, entry,
  Pool, OutputVersion, ZPoolOutput, no_vdev, no_pool, no_output,
}

-- A member of each struct, by its `json` tag; a member of no tag is skipped.
unfoldable pub prop_field : Bytes → Json → Prop → Option Prop
prop_field key j p =
    if is_key key (codes "value")
    then and_then (decode_string j p.value) (λ s. some (record p { value = s }))
    else if is_key key (codes "source")
    then and_then (decode_map (λ e. decode_string e []) j p.source)
        (λ m. some (record p { source = m }))
    else some p

unfoldable pub decode_prop : Json → Prop → Option Prop
unfolding prop_field
decode_prop = decode_struct prop_field

unfoldable pub properties_field : Bytes → Json → PoolProperties → Option PoolProperties
unfolding decode_prop
properties_field key j p =
    if is_key key (codes "size")
    then and_then (decode_prop j p.size) (λ q. some (record p { size = q }))
    else if is_key key (codes "allocated")
    then and_then (decode_prop j p.allocated) (λ q. some (record p { allocated = q }))
    else if is_key key (codes "free")
    then and_then (decode_prop j p.free) (λ q. some (record p { free = q }))
    else if is_key key (codes "checkpoint")
    then and_then (decode_prop j p.checkpoint) (λ q. some (record p { checkpoint = q }))
    else if is_key key (codes "expandsize")
    then and_then (decode_prop j p.expand_size) (λ q. some (record p { expand_size = q }))
    else if is_key key (codes "fragmentation")
    then and_then (decode_prop j p.fragmentation) (λ q. some (record p { fragmentation = q }))
    else if is_key key (codes "capacity")
    then and_then (decode_prop j p.capacity) (λ q. some (record p { capacity = q }))
    else if is_key key (codes "dedupratio")
    then and_then (decode_prop j p.dedup_ratio) (λ q. some (record p { dedup_ratio = q }))
    else if is_key key (codes "health")
    then and_then (decode_prop j p.health) (λ q. some (record p { health = q }))
    else if is_key key (codes "altroot")
    then and_then (decode_prop j p.alt_root) (λ q. some (record p { alt_root = q }))
    else some p

unfoldable pub decode_properties : Json → PoolProperties → Option PoolProperties
unfolding properties_field
decode_properties = decode_struct properties_field

unfoldable pub head_field : Bytes → Json → VDevHead → Option VDevHead
unfolding decode_properties
head_field key j h =
    if is_key key (codes "name")
    then and_then (decode_string j h.name) (λ s. some (record h { name = s }))
    else if is_key key (codes "vdev_type")
    then and_then (decode_string j h.vdev_type) (λ s. some (record h { vdev_type = s }))
    else if is_key key (codes "guid")
    then and_then (decode_string j h.guid) (λ s. some (record h { guid = s }))
    else if is_key key (codes "class")
    then and_then (decode_string j h.class) (λ s. some (record h { class = s }))
    else if is_key key (codes "state")
    then and_then (decode_string j h.state) (λ s. some (record h { state = s }))
    else if is_key key (codes "path")
    then and_then (decode_string j h.path) (λ s. some (record h { path = s }))
    else if is_key key (codes "properties")
    then and_then (decode_properties j h.properties) (λ q. some (record h { properties = q }))
    else some h

-- `m[k] = v` on the entries of a `map[string]VDev`
unfoldable pub entries_of : VDevEntries → Dict VDev
entries_of no_entry = []
entries_of (entry k v es) = (k, v) ∷ entries_of es

unfoldable pub from_entries : Dict VDev → VDevEntries
from_entries [] = no_entry
from_entries ((k, v) ∷ m) = entry k v (from_entries m)

unfoldable pub put_vdev : Bytes → VDev → VDevEntries → VDevEntries
unfolding entries_of from_entries
put_vdev k v es = from_entries (put k v (entries_of es))

unfoldable pub with_head : VDev → Option VDevHead → Option VDev
with_head v none = none
with_head (vdev h kids) (some h') = some (vdev h' kids)

unfoldable pub with_kids : VDev → Option VDevMap → Option VDev
with_kids v none = none
with_kids (vdev h kids) (some kids') = some (vdev h kids')

unfoldable pub head_of : VDev → VDevHead
head_of (vdev h kids) = h

unfoldable pub kids_of : VDev → VDevMap
kids_of (vdev h kids) = kids

unfoldable pub made_entries : VDevMap → VDevEntries
made_entries nil_map = no_entry
made_entries (made es) = es

-- the decoder of `VDev`, which calls itself on the nested map
unfoldable mutual
  unfolding head_field put_vdev with_head with_kids head_of kids_of made_entries

  pub decode_vdev : Json → VDev → Option VDev
  decode_vdev null v = some v
  decode_vdev (object ms) v = vdev_fields ms v
  decode_vdev _ v = none

  pub vdev_fields : Members → VDev → Option VDev
  vdev_fields end v = some v
  vdev_fields (member key j ms) v =
      and_then
        (if is_key key (codes "vdevs")
          then with_kids v (decode_vdevs j (kids_of v))
          else with_head v (head_field key j (head_of v)))
        (λ v'. vdev_fields ms v')

  pub decode_vdevs : Json → VDevMap → Option VDevMap
  decode_vdevs null m = some nil_map
  decode_vdevs (object ms) m = and_then (put_vdevs ms (made_entries m)) (λ es. some (made es))
  decode_vdevs _ m = none

  pub put_vdevs : Members → VDevEntries → Option VDevEntries
  put_vdevs end es = some es
  put_vdevs (member key j ms) es =
      and_then (decode_vdev j no_vdev) (λ v. put_vdevs ms (put_vdev key v es))

unfoldable pub pool_field : Bytes → Json → Pool → Option Pool
unfolding decode_properties decode_vdev
pool_field key j p =
    if is_key key (codes "name")
    then and_then (decode_string j p.name) (λ s. some (record p { name = s }))
    else if is_key key (codes "type")
    then and_then (decode_string j p.type) (λ s. some (record p { type = s }))
    else if is_key key (codes "state")
    then and_then (decode_string j p.state) (λ s. some (record p { state = s }))
    else if is_key key (codes "pool_guid")
    then and_then (decode_string j p.pool_guid) (λ s. some (record p { pool_guid = s }))
    else if is_key key (codes "txg")
    then and_then (decode_string j p.txg) (λ s. some (record p { txg = s }))
    else if is_key key (codes "spa_version")
    then and_then (decode_string j p.spa_version) (λ s. some (record p { spa_version = s }))
    else if is_key key (codes "zpl_version")
    then and_then (decode_string j p.zpl_version) (λ s. some (record p { zpl_version = s }))
    else if is_key key (codes "properties")
    then and_then (decode_properties j p.properties) (λ q. some (record p { properties = q }))
    else if is_key key (codes "vdevs")
    then and_then (decode_vdevs j p.vdevs) (λ m. some (record p { vdevs = m }))
    else some p

unfoldable pub decode_pool : Json → Pool → Option Pool
unfolding pool_field
decode_pool = decode_struct pool_field

unfoldable pub version_field : Bytes → Json → OutputVersion → Option OutputVersion
version_field key j v =
    if is_key key (codes "command")
    then and_then (decode_string j v.command) (λ s. some (record v { command = s }))
    else if is_key key (codes "vers_major")
    then and_then (decode_int j v.vers_major) (λ n. some (record v { vers_major = n }))
    else if is_key key (codes "vers_minor")
    then and_then (decode_int j v.vers_minor) (λ n. some (record v { vers_minor = n }))
    else some v

unfoldable pub output_field : Bytes → Json → ZPoolOutput → Option ZPoolOutput
unfolding version_field decode_pool
output_field key j z =
    if is_key key (codes "output_version")
    then and_then (decode_struct version_field j z.output_version)
        (λ v. some (record z { output_version = v }))
    else if is_key key (codes "pools")
    then and_then (decode_map (λ e. decode_pool e no_pool) j z.pools)
        (λ m. some (record z { pools = m }))
    else some z

-- `json.Unmarshal(out, &data)`, from the value that the bytes spell
unfoldable pub decode_output : Json → Option ZPoolOutput
unfolding output_field
decode_output j = decode_struct output_field j no_output
