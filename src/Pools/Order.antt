-- ===== src/Pools/Order.antt =====
-- The pools whose maps are given in the order of their keys, at every depth, which is how a Go map
-- is given here.
use zdash.Prelude.{◌≡◌, refl, ap, [], ◌∷◌, Option, none, some}
use zdash.Json.Maps.{Dict, IsAscending}
use zdash.Text.Print.RoundTrip.{IsInt64}
use zdash.Json.Kept.{Sound}
use zdash.Pools.{
  Prop, PoolProperties, VDev, vdev, VDevMap, nil_map, made, VDevEntries, no_entry, entry, Pool,
  ZPoolOutput,
}
use zdash.Pools.Decode.{entries_of, from_entries}

-- The entries of a map stand in the order of their keys, which is how a map is given.
abbrev pub IsOrderedMap {ℓ} : {V : Type ℓ} → Option (Dict V) → Type 0
IsOrderedMap none = Unit
IsOrderedMap (some m) = IsAscending m

abbrev pub IsOrderedProp : Prop → Type 0
IsOrderedProp p = IsOrderedMap p.source

abbrev pub IsOrderedProperties : PoolProperties → Type 0
IsOrderedProperties p =
    IsOrderedProp p.size
    × IsOrderedProp p.allocated
    × IsOrderedProp p.free
    × IsOrderedProp p.checkpoint
    × IsOrderedProp p.expand_size
    × IsOrderedProp p.fragmentation
    × IsOrderedProp p.capacity
    × IsOrderedProp p.dedup_ratio
    × IsOrderedProp p.health
    × IsOrderedProp p.alt_root

abbrev mutual
  pub IsOrdered : VDev → Type 0
  IsOrdered (vdev h kids) = IsOrderedProperties h.properties × IsOrderedKids kids

  pub IsOrderedKids : VDevMap → Type 0
  IsOrderedKids nil_map = Unit
  IsOrderedKids (made es) = IsAscending (entries_of es) × AllOrdered es

  pub AllOrdered : VDevEntries → Type 0
  AllOrdered no_entry = Unit
  AllOrdered (entry k v es) = IsOrdered v × AllOrdered es

abbrev pub IsOrderedPool : Pool → Type 0
IsOrderedPool p = IsOrderedProperties p.properties × IsOrderedKids p.vdevs

-- Every map of the output is given in the order of its keys, and its versions are `int`s.
pub record IsOrderedOutput (z : ZPoolOutput) : Type 0 where
  pub major : IsInt64 z.output_version.vers_major
  pub minor : IsInt64 z.output_version.vers_minor
  pub pools : Sound IsOrderedPool z.pools

pub entries_of-from_entries : (m : Dict VDev) → entries_of (from_entries m) ≡ m
unfolding entries_of from_entries
entries_of-from_entries [] = refl
entries_of-from_entries ((k, v) ∷ m) = ap (◌∷◌ (k, v)) (entries_of-from_entries m)

pub from_entries-entries_of : (es : VDevEntries) → from_entries (entries_of es) ≡ es
unfolding entries_of from_entries
from_entries-entries_of no_entry = refl
from_entries-entries_of (entry k v es) = ap (entry k v) (from_entries-entries_of es)
