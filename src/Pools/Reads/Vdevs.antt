-- ===== src/Pools/Reads/Vdevs.antt =====
-- What is read of a vdev, its nested vdevs included, has its maps in order.
use zdash.Prelude.{[], ◌∷◌, Option, none, some, Bytes, codes, All}
use mathlib.Core.Path.{subst, sym}
use zdash.Json.Maps.{Dict, IsAscending, put-IsAscending}
use zdash.Json.Values.{
  Json, null, bool, number, text, array, object, Members, end, member, decode_string, is_key,
}
use zdash.Json.Kept.{Holds, some-Holds, if-Holds, and_then-Holds, field-Holds, plain-Holds, put-All}
use zdash.Pools.{
  VDevHead, VDev, vdev, VDevMap, nil_map, made, VDevEntries, no_entry, entry, no_vdev,
}
use zdash.Pools.Order.{
  IsOrderedProperties, IsOrdered, IsOrderedKids, AllOrdered, entries_of-from_entries,
}
use zdash.Pools.Decode.{
  head_field, decode_properties, entries_of, from_entries, put_vdev, with_head, with_kids, head_of,
  kids_of, made_entries, decode_vdev, vdev_fields, decode_vdevs, put_vdevs,
}
use zdash.Pools.Reads.{properties-Holds}

head_field-Holds :
    (key : Bytes) (j : Json) (h : VDevHead)
    → IsOrderedProperties h.properties
    → Holds (λ h. IsOrderedProperties h.properties) (head_field key j h)
unfolding head_field
head_field-Holds key j h o =
    plain-Holds (λ h. IsOrderedProperties h.properties) _ (decode_string j h.name)
      (λ s. record h { name = s }) _ (λ s. o)
      (plain-Holds (λ h. IsOrderedProperties h.properties) _ (decode_string j h.vdev_type)
        (λ s. record h { vdev_type = s }) _ (λ s. o)
        (plain-Holds (λ h. IsOrderedProperties h.properties) _ (decode_string j h.guid)
          (λ s. record h { guid = s }) _ (λ s. o)
          (plain-Holds (λ h. IsOrderedProperties h.properties) _ (decode_string j h.class)
            (λ s. record h { class = s }) _ (λ s. o)
            (plain-Holds (λ h. IsOrderedProperties h.properties) _ (decode_string j h.state)
              (λ s. record h { state = s }) _ (λ s. o)
              (plain-Holds (λ h. IsOrderedProperties h.properties) _ (decode_string j h.path)
                (λ s. record h { path = s }) _ (λ s. o)
                (field-Holds IsOrderedProperties (λ h. IsOrderedProperties h.properties) _
                  (decode_properties j h.properties) (λ q. record h { properties = q }) _
                  (properties-Holds j h.properties o) (λ q o'. o') (some-Holds _ h o)))))))

-- The entries of a map and the values they hold.
entries_of-All : (es : VDevEntries) → AllOrdered es → All (λ e. IsOrdered e.1) (entries_of es)
unfolding entries_of
entries_of-All no_entry o = tt
entries_of-All (entry k v es) o = (o.0, entries_of-All es o.1)

from_entries-All : (m : Dict VDev) → All (λ e. IsOrdered e.1) m → AllOrdered (from_entries m)
unfolding from_entries
from_entries-All [] o = tt
from_entries-All ((k, v) ∷ m) o = (o.0, from_entries-All m o.1)

abbrev AreOrdered : VDevEntries → Type 0
AreOrdered es = IsAscending (entries_of es) × AllOrdered es

put_vdev-AreOrdered :
    (k : Bytes) (v : VDev) (es : VDevEntries)
    → IsOrdered v
    → AreOrdered es
    → AreOrdered (put_vdev k v es)
unfolding put_vdev
put_vdev-AreOrdered k v es o a = (
  subst IsAscending (sym (entries_of-from_entries _)) (put-IsAscending k v (entries_of es) a.0),
  from_entries-All _ (put-All IsOrdered k v (entries_of es) o (entries_of-All es a.1)),
)

with_head-Holds :
    (v : VDev) (r : Option VDevHead)
    → IsOrdered v
    → Holds (λ h. IsOrderedProperties h.properties) r
    → Holds IsOrdered (with_head v r)
unfolding with_head Holds
with_head-Holds v none o h = tt
with_head-Holds (vdev h kids) (some h') o p = (p, o.1)

with_kids-Holds :
    (v : VDev) (r : Option VDevMap)
    → IsOrdered v
    → Holds IsOrderedKids r
    → Holds IsOrdered (with_kids v r)
unfolding with_kids Holds
with_kids-Holds v none o h = tt
with_kids-Holds (vdev h kids) (some kids') o p = (o.0, p)

made-AreOrdered : (m : VDevMap) → IsOrderedKids m → AreOrdered (made_entries m)
unfolding made_entries entries_of
made-AreOrdered nil_map o = (tt, tt)
made-AreOrdered (made es) o = o

head_of-ordered : (v : VDev) → IsOrdered v → IsOrderedProperties (head_of v).properties
unfolding head_of
head_of-ordered (vdev h kids) o = o.0

kids_of-ordered : (v : VDev) → IsOrdered v → IsOrderedKids (kids_of v)
unfolding kids_of
kids_of-ordered (vdev h kids) o = o.1

mutual
  unfolding decode_vdev Holds

  pub vdev-Holds : (j : Json) (v : VDev) → IsOrdered v → Holds IsOrdered (decode_vdev j v)
  vdev-Holds null v o = o
  vdev-Holds (object ms) v o = fields-Holds ms v o
  vdev-Holds (bool b) v o = tt
  vdev-Holds (number n) v o = tt
  vdev-Holds (text t) v o = tt
  vdev-Holds (array a) v o = tt

  fields-Holds : (ms : Members) (v : VDev) → IsOrdered v → Holds IsOrdered (vdev_fields ms v)
  fields-Holds end v o = o
  fields-Holds (member key j ms) v o =
      and_then-Holds IsOrdered IsOrdered _ _
        (if-Holds IsOrdered (is_key key (codes "vdevs")) (with_kids v (decode_vdevs j (kids_of v)))
          (with_head v (head_field key j (head_of v)))
          (with_kids-Holds v _ o (vdevs-Holds j (kids_of v) (kids_of-ordered v o)))
          (with_head-Holds v _ o (head_field-Holds key j (head_of v) (head_of-ordered v o))))
        (λ v' o'. fields-Holds ms v' o')

  pub vdevs-Holds :
      (j : Json) (m : VDevMap) → IsOrderedKids m → Holds IsOrderedKids (decode_vdevs j m)
  vdevs-Holds null m o = tt
  vdevs-Holds (object ms) m o =
      and_then-Holds AreOrdered IsOrderedKids (put_vdevs ms (made_entries m)) (λ es. some (made es))
        (entries-Holds ms (made_entries m) (made-AreOrdered m o)) (λ es o'. o')
  vdevs-Holds (bool b) v o = tt
  vdevs-Holds (number n) v o = tt
  vdevs-Holds (text t) v o = tt
  vdevs-Holds (array a) v o = tt

  entries-Holds :
      (ms : Members) (es : VDevEntries) → AreOrdered es → Holds AreOrdered (put_vdevs ms es)
  entries-Holds end es o = o
  entries-Holds (member key j ms) es o =
      and_then-Holds IsOrdered AreOrdered (decode_vdev j no_vdev)
        (λ v. put_vdevs ms (put_vdev key v es))
        (vdev-Holds j no_vdev ((tt, tt, tt, tt, tt, tt, tt, tt, tt, tt), tt))
        (λ v o'. entries-Holds ms (put_vdev key v es) (put_vdev-AreOrdered key v es o' o))
