-- ===== src/Smart/Tests.antt =====
-- The report of two drives, and the theorems at it.
use zdash.Prelude.{
  ℕ, suc, zero, ◌<◌, ◌≡◌, refl, true, List, [], ◌∷◌, Option, none, some, map, length, arith, Bytes,
  codes,
}
use zdash.Prelude.Int.{pos}
use zdash.Smart.{RawNvme, RawSmartAll, RawAttribute, RawSelfTest, attribute_of, parse_smart_all}
use zdash.Smart.Details.{parse_smart_all_ata}
use zdash.Smart.Report.{SmartScanDevice, Fetched, failed, probe_all, in_scan_order}
use zdash.Smart.Report.Order.{finishes, probe_all_deterministic}
use zdash.Smart.{SmartDetails}

abbrev nvme_log : RawNvme
nvme_log = record {
  critical_warning = pos 0;
  temperature = pos 41;
  available_spare = pos 100;
  available_spare_threshold = pos 10;
  percentage_used = pos 3;
  data_units_read = 5;
  data_units_written = 6;
  host_reads = 7;
  host_writes = 8;
  controller_busy_time = 9;
  power_cycles = 12;
  power_on_hours = 345;
  unsafe_shutdowns = 1;
  media_errors = 0;
  num_err_log_entries = 0;
  warning_temp_time = 0;
  critical_comp_time = 0;
  temperature_sensors = pos 41 ∷ [];
}

abbrev reallocated : RawAttribute
reallocated = record {
  id = pos 5;
  name = codes "Reallocated_Sector_Ct";
  value = pos 100;
  worst = pos 100;
  thresh = pos 10;
  when_failed = [];
  raw_value = 0;
  raw_string = codes "0";
}

abbrev self_test : ℕ → RawSelfTest
self_test hours = record { passed = true; string = codes "Completed"; lifetime_hours = pos hours }

abbrev raw_drive :
    Option RawNvme → Option (List RawAttribute) → Option (List RawSelfTest) → RawSmartAll
raw_drive nvme attributes log = record {
  model_name = codes "Drive";
  model_family = [];
  serial_number = codes "S1";
  firmware = [];
  form_factor_name = [];
  rotation_rate = pos 0;
  user_capacity_bytes = 1000;
  device_type = [];
  device_protocol = [];
  smart_passed = true;
  temperature_current = pos 40;
  op_limit_max = pos 60;
  critical_limit_max = pos 70;
  nvme_warning = pos 0;
  nvme_critical = pos 80;
  power_on_time_hours = 0;
  power_cycle_count = 11;
  nvme_health = nvme;
  ata_attributes = attributes;
  ata_self_test_log = log;
}

abbrev nvme_drive : RawSmartAll
nvme_drive = raw_drive (some nvme_log) none none

abbrev ata_drive : RawSmartAll
ata_drive = raw_drive none (some (reallocated ∷ [])) (some (self_test 10 ∷ self_test 20 ∷ []))

parse_smart_all_ata_example :
    (parse_smart_all ata_drive).ata
    ≡ some (record {
      attributes = map attribute_of (reallocated ∷ []);
      self_test = record { passed = true; status_string = codes "Completed"; hours = pos 20 };
    })
parse_smart_all_ata_example =
    parse_smart_all_ata ata_drive (reallocated ∷ []) (self_test 10 ∷ []) (self_test 20) refl refl

abbrev pub two_drives : List SmartScanDevice
two_drives =
    record {
      name = codes "/dev/sda";
      info_name = codes "/dev/sda";
      type = codes "sat";
      protocol = codes "ATA";
    }
    ∷ record {
      name = codes "/dev/nvme0";
      info_name = codes "/dev/nvme0";
      type = codes "nvme";
      protocol = codes "NVMe";
    }
    ∷ []

abbrev pub no_probe : Bytes → Fetched SmartDetails
no_probe name = failed (codes "smartctl exec")

abbrev pub backwards : List ℕ
backwards = 1 ∷ 0 ∷ []

pub both_finish : (i : ℕ) → i < length two_drives → finishes i backwards ≡ true
both_finish zero h = refl
both_finish (suc zero) h = refl
both_finish (suc (suc i)) h = absurd (omega arith)

probe_all_deterministic_example :
    probe_all no_probe two_drives backwards ≡ in_scan_order no_probe two_drives
probe_all_deterministic_example = probe_all_deterministic no_probe two_drives backwards both_finish
