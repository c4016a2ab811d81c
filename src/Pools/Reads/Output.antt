-- ===== src/Pools/Reads/Output.antt =====
-- What is read of the whole output of zpool has its maps in order, and its versions are `int`s.
use zdash.Prelude.{some, Bytes, ◌≡◌, arith}
use zdash.Prelude.Int.{ℤ}
use zdash.Text.Numbers.{parse_int, at_most, negated, positive}
use zdash.Text.Print.RoundTrip.{IsInt64}
use zdash.Json.Values.{
  Json, null, bool, number, text, array, object, decode_string, decode_int, decode_struct,
  decode_map,
}
use zdash.Json.Kept.{
  Holds, at-Holds, some-Holds, field-Holds, plain-Holds, decode_struct-Holds, Sound,
  decode_map-Holds,
}
use zdash.Pools.{Pool, OutputVersion, ZPoolOutput, no_pool, no_output}
use zdash.Pools.Order.{IsOrderedProperties, IsOrderedKids, IsOrderedPool, IsOrderedOutput}
use zdash.Pools.Decode.{
  decode_properties, decode_vdevs, pool_field, decode_pool, version_field, output_field,
  decode_output,
}
use zdash.Pools.Encode.{encode_output}
use zdash.Pools.RoundTrip.{decode_output-encode_output}
use zdash.Pools.Reads.{properties-Holds}
use zdash.Pools.Reads.Vdevs.{vdevs-Holds}

parse_int-IsInt64 : (s : Bytes) → Holds IsInt64 (parse_int s)
unfolding Holds parse_int at_most negated positive
parse_int-IsInt64 s = ground arith

int-Holds : (j : Json) (n : ℤ) → IsInt64 n → Holds IsInt64 (decode_int j n)
unfolding decode_int Holds
int-Holds null n h = h
int-Holds (number s) n h = parse_int-IsInt64 s
int-Holds (bool b) n h = tt
int-Holds (text t) n h = tt
int-Holds (array a) n h = tt
int-Holds (object ms) n h = tt

pool_field-Holds :
    (key : Bytes) (j : Json) (p : Pool) → IsOrderedPool p → Holds IsOrderedPool (pool_field key j p)
unfolding pool_field
pool_field-Holds key j p o =
    plain-Holds IsOrderedPool _ (decode_string j p.name) (λ s. record p { name = s }) _ (λ s. o)
      (plain-Holds IsOrderedPool _ (decode_string j p.type) (λ s. record p { type = s }) _ (λ s. o)
        (plain-Holds IsOrderedPool _ (decode_string j p.state) (λ s. record p { state = s }) _
          (λ s. o)
          (plain-Holds IsOrderedPool _ (decode_string j p.pool_guid)
            (λ s. record p { pool_guid = s }) _ (λ s. o)
            (plain-Holds IsOrderedPool _ (decode_string j p.txg) (λ s. record p { txg = s }) _
              (λ s. o)
              (plain-Holds IsOrderedPool _ (decode_string j p.spa_version)
                (λ s. record p { spa_version = s }) _ (λ s. o)
                (plain-Holds IsOrderedPool _ (decode_string j p.zpl_version)
                  (λ s. record p { zpl_version = s }) _ (λ s. o)
                  (field-Holds IsOrderedProperties IsOrderedPool _
                    (decode_properties j p.properties) (λ q. record p { properties = q }) _
                    (properties-Holds j p.properties o.0) (λ q h. (h, o.1))
                    (field-Holds IsOrderedKids IsOrderedPool _ (decode_vdevs j p.vdevs)
                      (λ m. record p { vdevs = m }) _ (vdevs-Holds j p.vdevs o.1) (λ m h. (o.0, h))
                      (some-Holds _ p o)))))))))

pool-Holds : (j : Json) → Holds IsOrderedPool (decode_pool j no_pool)
unfolding decode_pool
pool-Holds j =
    decode_struct-Holds IsOrderedPool pool_field pool_field-Holds j no_pool
      ((tt, tt, tt, tt, tt, tt, tt, tt, tt, tt), tt)

abbrev IsVersion : OutputVersion → Type 0
IsVersion v = IsInt64 v.vers_major × IsInt64 v.vers_minor

version_field-Holds :
    (key : Bytes) (j : Json) (v : OutputVersion)
    → IsVersion v
    → Holds IsVersion (version_field key j v)
unfolding version_field
version_field-Holds key j v o =
    plain-Holds IsVersion _ (decode_string j v.command) (λ s. record v { command = s }) _ (λ s. o)
      (field-Holds IsInt64 IsVersion _ (decode_int j v.vers_major)
        (λ n. record v { vers_major = n }) _ (int-Holds j v.vers_major o.0) (λ n h. (h, o.1))
        (field-Holds IsInt64 IsVersion _ (decode_int j v.vers_minor)
          (λ n. record v { vers_minor = n }) _ (int-Holds j v.vers_minor o.1) (λ n h. (o.0, h))
          (some-Holds _ v o)))

output_field-Holds :
    (key : Bytes) (j : Json) (z : ZPoolOutput)
    → IsOrderedOutput z
    → Holds IsOrderedOutput (output_field key j z)
unfolding output_field
output_field-Holds key j z o =
    field-Holds IsVersion IsOrderedOutput _ (decode_struct version_field j z.output_version)
      (λ v. record z { output_version = v }) _
      (decode_struct-Holds IsVersion version_field version_field-Holds j z.output_version
        (o.major, o.minor))
      (λ v h. record { major = h.0; minor = h.1; pools = o.pools })
      (field-Holds (Sound IsOrderedPool) IsOrderedOutput _
        (decode_map (λ e. decode_pool e no_pool) j z.pools) (λ m. record z { pools = m }) _
        (decode_map-Holds IsOrderedPool (λ e. decode_pool e no_pool) pool-Holds j z.pools o.pools)
        (λ m h. record { major = o.major; minor = o.minor; pools = h }) (some-Holds _ z o))

decode_output-IsOrderedOutput :
    (j : Json) (z : ZPoolOutput) → decode_output j ≡ some z → IsOrderedOutput z
decode_output-IsOrderedOutput j z e =
    at-Holds IsOrderedOutput (decode_output j)
      (unfold decode_output in
        decode_struct-Holds IsOrderedOutput output_field output_field-Holds j no_output
          (record { major = omega arith; minor = omega arith; pools = tt }))
      e

-- What the API serves of the pools decodes to what was decoded from zpool: whatever value
-- `json.Unmarshal` reads of zpool's output, nested vdevs included, it reads back unchanged from what
-- `json.Marshal` writes of it.
pub served_pools_decode :
    (j : Json) (z : ZPoolOutput)
    → decode_output j ≡ some z
    → decode_output (encode_output z) ≡ some z
served_pools_decode j z e = decode_output-encode_output z (decode_output-IsOrderedOutput j z e)
