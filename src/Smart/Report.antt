-- ===== src/Smart/Report.antt =====
-- `produceSmart` up to its encoding: the scan, and a probe of each device in a goroutine of its own.
pub mod Order
use zdash.Prelude.{
  ℕ, zero, suc, Bool, true, false, List, [], ◌∷◌, Option, none, some, Bytes, map, length,
}
use zdash.Prelude.Int.{ℤ}
use zdash.Smart.{SmartDetails, smartctl_version}

-- `SmartScanDevice`
pub record SmartScanDevice : Type 0 where
  pub name : Bytes
  pub info_name : Bytes
  pub type : Bytes
  pub protocol : Bytes

-- `rawSmartScan`
pub record RawSmartScan : Type 0 where
  pub version : List ℤ
  pub exit_status : ℤ
  pub devices : List SmartScanDevice

-- A result of `fetchSmartScan` or `fetchSmartDevice`, with the text of the error.
pub data Fetched {ℓ} (A : Type ℓ) : Type ℓ where
  got : A → Fetched A
  failed : Bytes → Fetched A

-- `SmartDeviceReport`
pub record SmartDeviceReport : Type 0 where
  pub name : Bytes
  pub type : Bytes
  pub protocol : Bytes
  pub ok : Bool
  pub error : Bytes
  pub details : Option SmartDetails

-- `SmartReport`
pub record SmartReport : Type 0 where
  pub smartctl_available : Bool
  pub version : Bytes
  pub scan_error : Bytes
  pub timestamp : ℕ
  pub devices : List SmartDeviceReport

-- what `make` fills the slots with
abbrev pub no_report : SmartDeviceReport
no_report = record { name = []; type = []; protocol = []; ok = false; error = []; details = none }

pub report_of : SmartScanDevice → Fetched SmartDetails → SmartDeviceReport
report_of dev (got details) = record {
  name = dev.name;
  type = dev.type;
  protocol = dev.protocol;
  ok = true;
  error = [];
  details = some details;
}
report_of dev (failed message) = record {
  name = dev.name;
  type = dev.type;
  protocol = dev.protocol;
  ok = false;
  error = message;
  details = none;
}

-- `report.Devices[i] = rep`
abbrev pub set {ℓ} : {A : Type ℓ} → List A → ℕ → A → List A
set [] i v = []
set (x ∷ xs) zero v = v ∷ xs
set (x ∷ xs) (suc i) v = x ∷ set xs i v

abbrev pub get_elem? {ℓ} : {A : Type ℓ} → List A → ℕ → Option A
get_elem? [] i = none
get_elem? (x ∷ xs) zero = some x
get_elem? (x ∷ xs) (suc i) = get_elem? xs i

abbrev blanks : List SmartScanDevice → List SmartDeviceReport
blanks = map (λ dev. no_report)

module _ (probe : Bytes → Fetched SmartDetails) where
  -- goroutine `i` writes its slot
  finish : List SmartScanDevice → ℕ → List SmartDeviceReport → List SmartDeviceReport
  unfolding report_of
  finish devices i slots = elim (get_elem? devices i) [
    | none ↦ slots
    | some dev ↦ set slots i (report_of dev (probe dev.name))
  ]

  finish_all : List SmartScanDevice → List ℕ → List SmartDeviceReport → List SmartDeviceReport
  unfolding finish
  finish_all devices [] slots = slots
  finish_all devices (i ∷ order) slots = finish_all devices order (finish devices i slots)

  -- The slots behind `wg.Wait()`, when the goroutines finish in this order.
  unfoldable pub probe_all : List SmartScanDevice → List ℕ → List SmartDeviceReport
  unfolding finish_all
  probe_all devices order = finish_all devices order (blanks devices)

  -- `produceSmart` down to `json.Marshal`
  unfoldable pub smart_report : ℕ → List ℕ → Fetched RawSmartScan → SmartReport
  unfolding probe_all
  smart_report now order (failed message) = record {
    smartctl_available = false;
    version = [];
    scan_error = message;
    timestamp = now;
    devices = [];
  }
  smart_report now order (got scan) = record {
    smartctl_available = true;
    version = smartctl_version scan.version;
    scan_error = [];
    timestamp = now;
    devices = probe_all scan.devices order;
  }

  -- one report for each device, in the order of the scan
  abbrev pub in_scan_order : List SmartScanDevice → List SmartDeviceReport
  in_scan_order = map (λ dev. report_of dev (probe dev.name))
