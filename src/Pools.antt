-- ===== src/Pools.antt =====
-- api.go: the pools of `zpool list -v --json`. A map is its entries in the order of their keys.
pub mod Decode
pub mod Encode
pub mod Order
pub mod Reads
pub mod RoundTrip
pub mod Served
mod Tests
use zdash.Prelude.{ℕ, List, [], ◌∷◌, Option, none, some, Bytes}
use zdash.Prelude.Int.{ℤ, pos}
use zdash.Json.Maps.{Dict}

-- `Prop`; a nil map is `none`.
pub record Prop : Type 0 where
  pub value : Bytes
  pub source : Option (Dict Bytes)

-- `PoolProperties`
pub record PoolProperties : Type 0 where
  pub size : Prop
  pub allocated : Prop
  pub free : Prop
  pub checkpoint : Prop
  pub expand_size : Prop
  pub fragmentation : Prop
  pub capacity : Prop
  pub dedup_ratio : Prop
  pub health : Prop
  pub alt_root : Prop

-- The fields of `VDev` but the last.
pub record VDevHead : Type 0 where
  pub name : Bytes
  pub vdev_type : Bytes
  pub guid : Bytes
  pub class : Bytes
  pub state : Bytes
  pub path : Bytes
  pub properties : PoolProperties

-- `VDev`, with its `map[string]VDev`
mutual
  pub data VDev : Type 0 where
    vdev : VDevHead → VDevMap → VDev

  pub data VDevMap : Type 0 where
    nil_map : VDevMap
    made : VDevEntries → VDevMap

  pub data VDevEntries : Type 0 where
    no_entry : VDevEntries
    entry : Bytes → VDev → VDevEntries → VDevEntries

-- `Pool`
pub record Pool : Type 0 where
  pub name : Bytes
  pub type : Bytes
  pub state : Bytes
  pub pool_guid : Bytes
  pub txg : Bytes
  pub spa_version : Bytes
  pub zpl_version : Bytes
  pub properties : PoolProperties
  pub vdevs : VDevMap

-- `ZPoolOutput.OutputVersion`
pub record OutputVersion : Type 0 where
  pub command : Bytes
  pub vers_major : ℤ
  pub vers_minor : ℤ

-- `ZPoolOutput`
pub record ZPoolOutput : Type 0 where
  pub output_version : OutputVersion
  pub pools : Option (Dict Pool)

-- the zero values
abbrev pub no_prop : Prop
no_prop = record { value = []; source = none }

abbrev pub no_properties : PoolProperties
no_properties = record {
  size = no_prop;
  allocated = no_prop;
  free = no_prop;
  checkpoint = no_prop;
  expand_size = no_prop;
  fragmentation = no_prop;
  capacity = no_prop;
  dedup_ratio = no_prop;
  health = no_prop;
  alt_root = no_prop;
}

abbrev pub no_vdev : VDev
no_vdev =
    vdev
      (record {
        name = [];
        vdev_type = [];
        guid = [];
        class = [];
        state = [];
        path = [];
        properties = no_properties;
      })
      nil_map

abbrev pub no_pool : Pool
no_pool = record {
  name = [];
  type = [];
  state = [];
  pool_guid = [];
  txg = [];
  spa_version = [];
  zpl_version = [];
  properties = no_properties;
  vdevs = nil_map;
}

abbrev pub no_output : ZPoolOutput
no_output = record {
  output_version = record { command = []; vers_major = pos 0; vers_minor = pos 0 };
  pools = none;
}
