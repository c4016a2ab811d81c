-- ===== src/Pools/Encode.antt =====
-- The pools as `json.Marshal` writes them: every field, by its tag, in the order of the struct.
use zdash.Prelude.{codes}
use zdash.Json.Values.{Json, null, text, object, Members, end, member, encode_map, encode_int}
use zdash.Pools.{
  Prop, PoolProperties, VDevHead, VDev, vdev, VDevMap, nil_map, made, VDevEntries, no_entry, entry,
  Pool, OutputVersion, ZPoolOutput,
}

unfoldable pub encode_prop : Prop → Json
encode_prop p =
    object (
      member (codes "value") (text p.value)
        (member (codes "source") (encode_map text p.source) end))

unfoldable pub encode_properties : PoolProperties → Json
unfolding encode_prop
encode_properties p = object (
    member (codes "size") (encode_prop p.size) (
      member (codes "allocated") (encode_prop p.allocated) (
        member (codes "free") (encode_prop p.free) (
          member (codes "checkpoint") (encode_prop p.checkpoint) (
            member (codes "expandsize") (encode_prop p.expand_size) (
              member (codes "fragmentation") (encode_prop p.fragmentation) (
                member (codes "capacity") (encode_prop p.capacity) (
                  member (codes "dedupratio") (encode_prop p.dedup_ratio) (
                    member (codes "health") (encode_prop p.health)
                      (member (codes "altroot") (encode_prop p.alt_root) (end)))))))))))

-- the members of a `VDev` in front of its last
unfoldable pub head_members : VDevHead → Members → Members
unfolding encode_properties
head_members h rest = member (codes "name") (text h.name) (
    member (codes "vdev_type") (text h.vdev_type) (
      member (codes "guid") (text h.guid) (
        member (codes "class") (text h.class) (
          member (codes "state") (text h.state) (
            member (codes "path") (text h.path)
              (member (codes "properties") (encode_properties h.properties) (rest)))))))

unfoldable mutual
  unfolding head_members

  pub encode_vdev : VDev → Json
  encode_vdev (vdev h kids) =
      object (head_members h (member (codes "vdevs") (encode_vdevs kids) end))

  pub encode_vdevs : VDevMap → Json
  encode_vdevs nil_map = null
  encode_vdevs (made es) = object (encode_entries es)

  pub encode_entries : VDevEntries → Members
  encode_entries no_entry = end
  encode_entries (entry k v es) = member k (encode_vdev v) (encode_entries es)

unfoldable pub encode_pool : Pool → Json
unfolding encode_properties encode_vdev
encode_pool p = object (
    member (codes "name") (text p.name) (
      member (codes "type") (text p.type) (
        member (codes "state") (text p.state) (
          member (codes "pool_guid") (text p.pool_guid) (
            member (codes "txg") (text p.txg) (
              member (codes "spa_version") (text p.spa_version) (
                member (codes "zpl_version") (text p.zpl_version) (
                  member (codes "properties") (encode_properties p.properties)
                    (member (codes "vdevs") (encode_vdevs p.vdevs) (end))))))))))

unfoldable pub encode_version : OutputVersion → Json
encode_version v = object (
    member (codes "command") (text v.command) (
      member (codes "vers_major") (encode_int v.vers_major)
        (member (codes "vers_minor") (encode_int v.vers_minor) end)))

-- `json.Marshal(data)`, up to its text
unfoldable pub encode_output : ZPoolOutput → Json
unfolding encode_version encode_pool
encode_output z = object (
    member (codes "output_version") (encode_version z.output_version)
      (member (codes "pools") (encode_map encode_pool z.pools) end))
