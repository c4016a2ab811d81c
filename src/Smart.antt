-- ===== src/Smart.antt =====
-- smart.go: the SMART report. `parse_smart_all` maps the decoded output of smartctl; running smartctl
-- and decoding its JSON are arguments of `Smart.Report`.
pub mod Details
pub mod Report
pub mod Tests
use zdash.Prelude.{
  ℕ, Bool, false, List, [], ◌∷◌, ◌++◌, Option, none, some, ◌==◌, if◌then◌else◌, Bytes, map,
}
use zdash.Prelude.Int.{ℤ, pos, eq_int, max_int}
use zdash.Text.{join}
use zdash.Text.Print.{itoa}

-- `nvme_smart_health_information_log`, as `rawSmartAll` decodes it
pub record RawNvme : Type 0 where
  pub critical_warning : ℤ
  pub temperature : ℤ
  pub available_spare : ℤ
  pub available_spare_threshold : ℤ
  pub percentage_used : ℤ
  pub data_units_read : ℕ
  pub data_units_written : ℕ
  pub host_reads : ℕ
  pub host_writes : ℕ
  pub controller_busy_time : ℕ
  pub power_cycles : ℕ
  pub power_on_hours : ℕ
  pub unsafe_shutdowns : ℕ
  pub media_errors : ℕ
  pub num_err_log_entries : ℕ
  pub warning_temp_time : ℕ
  pub critical_comp_time : ℕ
  pub temperature_sensors : List ℤ

-- `NVMeHealth`
pub record NvmeHealth : Type 0 where
  pub critical_warning : ℤ
  pub temperature : ℤ
  pub available_spare : ℤ
  pub available_spare_threshold : ℤ
  pub percentage_used : ℤ
  pub data_units_read : ℕ
  pub data_units_written : ℕ
  pub host_reads : ℕ
  pub host_writes : ℕ
  pub controller_busy_time : ℕ
  pub power_cycles : ℕ
  pub power_on_hours : ℕ
  pub unsafe_shutdowns : ℕ
  pub media_errors : ℕ
  pub num_err_log_entries : ℕ
  pub warning_temp_time : ℕ
  pub critical_comp_time : ℕ
  pub temperature_sensors : List ℤ

-- a row of `ata_smart_attributes.table`, and the `raw` object in it
pub record RawAttribute : Type 0 where
  pub id : ℤ
  pub name : Bytes
  pub value : ℤ
  pub worst : ℤ
  pub thresh : ℤ
  pub when_failed : Bytes
  pub raw_value : ℕ
  pub raw_string : Bytes

-- `ATAAttribute`
pub record AtaAttribute : Type 0 where
  pub id : ℤ
  pub name : Bytes
  pub value : ℤ
  pub worst : ℤ
  pub thresh : ℤ
  pub when_failed : Bytes
  pub raw_value : ℕ
  pub raw_string : Bytes

-- a row of `ata_smart_self_test_log.extended.table`
pub record RawSelfTest : Type 0 where
  pub passed : Bool
  pub string : Bytes
  pub lifetime_hours : ℤ

-- `ATASelfTest`
pub record AtaSelfTest : Type 0 where
  pub passed : Bool
  pub status_string : Bytes
  pub hours : ℤ

-- `ATAHealth`
pub record AtaHealth : Type 0 where
  pub attributes : List AtaAttribute
  pub self_test : AtaSelfTest

-- `rawSmartAll`, its nested objects flattened; `none` is a nil pointer.
pub record RawSmartAll : Type 0 where
  pub model_name : Bytes
  pub model_family : Bytes
  pub serial_number : Bytes
  pub firmware : Bytes
  pub form_factor_name : Bytes
  pub rotation_rate : ℤ
  pub user_capacity_bytes : ℕ
  pub device_type : Bytes
  pub device_protocol : Bytes
  pub smart_passed : Bool
  pub temperature_current : ℤ
  pub op_limit_max : ℤ
  pub critical_limit_max : ℤ
  pub nvme_warning : ℤ
  pub nvme_critical : ℤ
  pub power_on_time_hours : ℕ
  pub power_cycle_count : ℕ
  pub nvme_health : Option RawNvme
  pub ata_attributes : Option (List RawAttribute)
  pub ata_self_test_log : Option (List RawSelfTest)

-- `SmartDetails`
pub record SmartDetails : Type 0 where
  pub model_name : Bytes
  pub model_family : Bytes
  pub serial_number : Bytes
  pub firmware_version : Bytes
  pub form_factor : Bytes
  pub rotation_rate : ℤ
  pub capacity_bytes : ℕ
  pub protocol : Bytes
  pub device_type : Bytes
  pub smart_passed : Bool
  pub temperature_current : ℤ
  pub temperature_warning : ℤ
  pub temperature_critical : ℤ
  pub power_on_hours : ℕ
  pub power_cycle_count : ℕ
  pub nvme : Option NvmeHealth
  pub ata : Option AtaHealth

nvme_of : RawNvme → NvmeHealth
nvme_of h = record {
  critical_warning = h.critical_warning;
  temperature = h.temperature;
  available_spare = h.available_spare;
  available_spare_threshold = h.available_spare_threshold;
  percentage_used = h.percentage_used;
  data_units_read = h.data_units_read;
  data_units_written = h.data_units_written;
  host_reads = h.host_reads;
  host_writes = h.host_writes;
  controller_busy_time = h.controller_busy_time;
  power_cycles = h.power_cycles;
  power_on_hours = h.power_on_hours;
  unsafe_shutdowns = h.unsafe_shutdowns;
  media_errors = h.media_errors;
  num_err_log_entries = h.num_err_log_entries;
  warning_temp_time = h.warning_temp_time;
  critical_comp_time = h.critical_comp_time;
  temperature_sensors = h.temperature_sensors;
}

pub attribute_of : RawAttribute → AtaAttribute
attribute_of a = record {
  id = a.id;
  name = a.name;
  value = a.value;
  worst = a.worst;
  thresh = a.thresh;
  when_failed = a.when_failed;
  raw_value = a.raw_value;
  raw_string = a.raw_string;
}

-- the `append` loop over the attribute table
collect : List AtaAttribute → List RawAttribute → List AtaAttribute
unfolding attribute_of
collect done [] = done
collect done (a ∷ rest) = collect (done ++ attribute_of a ∷ []) rest

abbrev pub no_self_test : AtaSelfTest
no_self_test = record { passed = false; status_string = []; hours = pos 0 }

-- the last row of the self-test table, or the zero value
last_test : List RawSelfTest → AtaSelfTest
last_test [] = no_self_test
last_test (t ∷ []) = record {
  passed = t.passed;
  status_string = t.string;
  hours = t.lifetime_hours;
}
last_test (t ∷ u ∷ rest) = last_test (u ∷ rest)

self_test_of : Option (List RawSelfTest) → AtaSelfTest
unfolding last_test
self_test_of none = no_self_test
self_test_of (some table) = last_test table

-- `if raw.ATAAttributes != nil`
ata_of : Option (List RawAttribute) → Option (List RawSelfTest) → Option AtaHealth
unfolding collect self_test_of
ata_of none log = none
ata_of (some table) log =
    some (record { attributes = collect [] table; self_test = self_test_of log })

-- `if raw.NVMeHealth != nil`: the NVMe log, and the readings that fall back to it when they are 0
with_nvme : Option RawNvme → SmartDetails → SmartDetails
unfolding nvme_of
with_nvme none d = d
with_nvme (some h) d = record d {
  nvme = some (nvme_of h);
  power_on_hours = if d.power_on_hours == 0 then h.power_on_hours else d.power_on_hours;
  power_cycle_count = if d.power_cycle_count == 0 then h.power_cycles else d.power_cycle_count;
  temperature_current =
      if eq_int d.temperature_current (pos 0) then h.temperature else d.temperature_current;
}

base_details : RawSmartAll → SmartDetails
base_details raw = record {
  model_name = raw.model_name;
  model_family = raw.model_family;
  serial_number = raw.serial_number;
  firmware_version = raw.firmware;
  form_factor = raw.form_factor_name;
  rotation_rate = raw.rotation_rate;
  capacity_bytes = raw.user_capacity_bytes;
  protocol = raw.device_protocol;
  device_type = raw.device_type;
  smart_passed = raw.smart_passed;
  temperature_current = raw.temperature_current;
  temperature_warning = max_int raw.nvme_warning raw.op_limit_max;
  temperature_critical = max_int raw.nvme_critical raw.critical_limit_max;
  power_on_hours = raw.power_on_time_hours;
  power_cycle_count = raw.power_cycle_count;
  nvme = none;
  ata = none;
}

-- `parseSmartAll`
unfoldable pub parse_smart_all : RawSmartAll → SmartDetails
unfolding base_details with_nvme ata_of
parse_smart_all raw =
    let d = with_nvme raw.nvme_health (base_details raw) in
    record d { ata = ata_of raw.ata_attributes raw.ata_self_test_log }

-- `smartctlVersion`
unfoldable pub smartctl_version : List ℤ → Bytes
smartctl_version v = join (map itoa v) (b'.' ∷ [])
