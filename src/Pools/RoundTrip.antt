-- ===== src/Pools/RoundTrip.antt =====
-- What the API serves of the pools decodes to what was decoded from zpool.
use zdash.Prelude.{
  ◌≡◌, refl, ap, sym, ◌∙◌, [], ◌∷◌, ◌++◌, append_assoc, append-nil, Option, none, some, Bytes, All,
}
use zdash.Prelude.Int.{ℤ}
use zdash.Json.Maps.{Dict, IsAscending, put-last}
use zdash.Json.Values.{text, is_key, decode_string, decode_int, decode_struct, encode_int}
use zdash.Json.RoundTrip.{
  Precedes, Precedes-nil, Precedes-concat, ReadsBack, IsWritten, decode_map-encode_map,
}
use zdash.Text.Print.RoundTrip.{IsInt64, parse_int-itoa}
use zdash.Pools.{
  Prop, PoolProperties, VDev, vdev, VDevMap, nil_map, made, VDevEntries, no_entry, entry, Pool,
  OutputVersion, ZPoolOutput, no_prop, no_properties, no_vdev, no_pool,
}
use zdash.Json.Kept.{Sound}
use zdash.Pools.Order.{
  entries_of-from_entries, from_entries-entries_of, IsOrderedMap, IsOrderedProp,
  IsOrderedProperties, IsOrdered, IsOrderedKids, AllOrdered, IsOrderedPool, IsOrderedOutput,
}
use zdash.Pools.Decode.{
  decode_prop, decode_properties, head_field, decode_vdev, decode_vdevs, put_vdevs, entries_of,
  from_entries, decode_pool, version_field, decode_output,
}
use zdash.Pools.Encode.{
  encode_prop, encode_properties, head_members, encode_vdev, encode_vdevs, encode_entries,
  encode_pool, encode_version, encode_output,
}

texts-ReadBack : (m : Dict Bytes) → ReadsBack (λ e. decode_string e []) text m
unfolding decode_string
texts-ReadBack [] = tt
texts-ReadBack ((k, s) ∷ m) = (refl, texts-ReadBack m)

source-IsWritten :
    (m : Option (Dict Bytes)) → IsOrderedMap m → IsWritten (λ e. decode_string e []) text m
source-IsWritten none h = tt
source-IsWritten (some m) h = (texts-ReadBack m, h)

prop_back : (p : Prop) → IsOrderedProp p → decode_prop (encode_prop p) no_prop ≡ some p
unfolding decode_prop encode_prop decode_struct is_key decode_string
prop_back p h =
    rw (decode_map-encode_map (λ e. decode_string e []) text p.source (source-IsWritten p.source h))
      refl

properties_back :
    (p : PoolProperties)
    → IsOrderedProperties p
    → decode_properties (encode_properties p) no_properties ≡ some p
unfolding decode_properties encode_properties decode_struct is_key
properties_back p (o0, o1, o2, o3, o4, o5, o6, o7, o8, o9) =
    rw
      (
        prop_back p.size o0,
        prop_back p.allocated o1,
        prop_back p.free o2,
        prop_back p.checkpoint o3,
        prop_back p.expand_size o4,
        prop_back p.fragmentation o5,
        prop_back p.capacity o6,
        prop_back p.dedup_ratio o7,
        prop_back p.health o8,
        prop_back p.alt_root o9,
      )
      refl

mutual
  unfolding decode_vdev encode_vdev head_field head_members is_key decode_string entries_of

  vdev_back : (v : VDev) → IsOrdered v → decode_vdev (encode_vdev v) no_vdev ≡ some v
  vdev_back (vdev h kids) o = rw (properties_back h.properties o.0, vdevs_back kids o.1) refl

  vdevs_back : (m : VDevMap) → IsOrderedKids m → decode_vdevs (encode_vdevs m) nil_map ≡ some m
  vdevs_back nil_map o = refl
  vdevs_back (made es) o =
      rw (entries_back es [] o.0 o.1 (Precedes-nil (entries_of es)), from_entries-entries_of es)
        refl

  entries_back :
      (es : VDevEntries) (done : Dict VDev)
      → IsAscending (entries_of es)
      → AllOrdered es
      → Precedes done (entries_of es)
      → put_vdevs (encode_entries es) (from_entries done)
        ≡ some (from_entries (done ++ entries_of es))
  entries_back no_entry done a o h = ap some (ap from_entries (sym (append-nil done)))
  entries_back (entry k v es) done a o h =
      rw (vdev_back v o.0, entries_of-from_entries done, put-last k v done h)
        (entries_back es (done ++ (k, v) ∷ []) a.1 o.1
            (Precedes-concat done k v (entries_of es) h a.0)
          ∙ ap (λ m. some (from_entries m)) (append_assoc done ((k, v) ∷ []) (entries_of es)))

pool_back : (p : Pool) → IsOrderedPool p → decode_pool (encode_pool p) no_pool ≡ some p
unfolding decode_pool encode_pool decode_struct is_key decode_string
pool_back p o = rw (properties_back p.properties o.0, vdevs_back p.vdevs o.1) refl

pools-ReadBack :
    (m : Dict Pool)
    → All (λ e. IsOrderedPool e.1) m
    → ReadsBack (λ e. decode_pool e no_pool) encode_pool m
pools-ReadBack [] o = tt
pools-ReadBack ((k, p) ∷ m) o = (pool_back p o.0, pools-ReadBack m o.1)

pools-IsWritten :
    (m : Option (Dict Pool))
    → Sound IsOrderedPool m
    → IsWritten (λ e. decode_pool e no_pool) encode_pool m
pools-IsWritten none o = tt
pools-IsWritten (some m) o = (pools-ReadBack m o.1, o.0)

int_back : (n m : ℤ) → IsInt64 n → decode_int (encode_int n) m ≡ some n
unfolding decode_int encode_int
int_back n m h = parse_int-itoa n h

version_back :
    (v w : OutputVersion)
    → IsInt64 v.vers_major
    → IsInt64 v.vers_minor
    → decode_struct version_field (encode_version v) w ≡ some v
unfolding version_field encode_version decode_struct is_key decode_string
version_back v w a b = rw (int_back v.vers_major _ a, int_back v.vers_minor _ b) refl

-- What `json.Marshal` writes of the output of zpool, `json.Unmarshal` reads back unchanged, nested
-- vdevs included, where every map is given in the order of its keys and the versions are `int64`s.
pub decode_output-encode_output :
    (z : ZPoolOutput) → IsOrderedOutput z → decode_output (encode_output z) ≡ some z
unfolding decode_output encode_output decode_struct is_key
decode_output-encode_output z o =
    rw
      (
        version_back z.output_version _ o.major o.minor,
        decode_map-encode_map (λ e. decode_pool e no_pool) encode_pool z.pools
            (pools-IsWritten z.pools o.pools),
      )
      refl
