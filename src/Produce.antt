-- ===== src/Produce.antt =====
-- The producers of the four endpoints: what `produceZpool`, `produceARC`, `produceSysInfo` and
-- `produceSmart` answer. Subprocesses, the decoder and the encoder are arguments.
pub mod Statuses
mod Tests
use Prim.Native.String.{String}
use zdash.Prelude.{
  ℕ, Bool, true, false, ◌&&◌, List, [], ◌∷◌, ◌++◌, Option, none, some, if◌then◌else◌, Bytes, codes,
  equal,
}
use zdash.Refresh.{err_body}
use zdash.Arc.{ArcMetrics, fetch_arc}
use zdash.Arc
use zdash.SysInfo.Floats.{Floats}
use zdash.SysInfo.Fetch.{Host, SysInfo, fetch_sys_info}
use zdash.Smart.{RawSmartAll, SmartDetails, parse_smart_all}
use zdash.Smart.Report.{RawSmartScan, SmartReport, Fetched, got, failed, smart_report}

-- A subprocess that has ended: its standard output, and the text of its error.
pub record Output : Type 0 where
  pub out : Bytes
  pub err : Option Bytes

-- The result of a decoder or an encoder, or the text of its error.
pub data Coded {ℓ} (A : Type ℓ) : Type ℓ where
  coded : A → Coded A
  broken : Bytes → Coded A

abbrev internal_server_error : ℕ
internal_server_error = 500

-- the tail of a producer: encode the value, or answer with the message for a failure
encoded : Coded Bytes → String → Bytes × ℕ
encoded (coded body) msg = (body, 200)
encoded (broken _) msg = (err_body msg, internal_server_error)

-- `resolveZpoolBin` and `resolveSmartctlBin`, at whether the NixOS path exists
unfoldable pub resolve_zpool_bin : Bool → Bytes
resolve_zpool_bin true = codes "/run/current-system/sw/bin/zpool"
resolve_zpool_bin false = codes "zpool"

unfoldable pub resolve_smartctl_bin : Bool → Bytes
resolve_smartctl_bin true = codes "/run/current-system/sw/bin/smartctl"
resolve_smartctl_bin false = codes "smartctl"

module _ {ℓ} {Z : Type ℓ} where
  parsed : Bytes → Coded Z → Fetched Z
  parsed what (coded z) = got z
  parsed what (broken e) = failed (what ++ (codes ": " ++ e))

  -- `fetchZpool`, from what the subprocess gave; any error of it counts.
  unfoldable pub fetch_zpool : (Bytes → Coded Z) → Output → Fetched Z
  unfolding parsed
  fetch_zpool decode o = elim o.err [
    | some e ↦ failed (codes "zpool exec: " ++ e)
    | none ↦ parsed (codes "parse zpool json") (decode o.out)
  ]

  answer_zpool : Fetched Z → (Z → Coded Bytes) → Bytes × ℕ
  unfolding encoded
  answer_zpool (failed _) encode = (
    err_body
        "Failed to execute zpool command. Ensure it's installed and you have sufficient permissions (usually root or zfs group).",
    internal_server_error,
  )
  answer_zpool (got z) encode = encoded (encode z) "Failed to encode zpool output."

  -- `produceZpool`
  unfoldable pub produce_zpool : (Bytes → Coded Z) → (Z → Coded Bytes) → Output → Bytes × ℕ
  unfolding answer_zpool fetch_zpool
  produce_zpool decode encode o = answer_zpool (fetch_zpool decode o) encode

answer_arc : Arc.Result ArcMetrics → (ArcMetrics → Coded Bytes) → Bytes × ℕ
unfolding encoded
answer_arc (Arc.err _) encode = (
  err_body
      "Failed to read ARC stats. Ensure ZFS is loaded and /proc/spl/kstat/zfs/arcstats is readable (usually root or zfs group).",
  internal_server_error,
)
answer_arc (Arc.ok m) encode = encoded (encode m) "Failed to encode ARC stats."

-- `produceARC`
unfoldable pub produce_arc : (ArcMetrics → Coded Bytes) → Bool → Option Bytes → ℕ → Bytes × ℕ
unfolding answer_arc
produce_arc encode done file now = answer_arc (fetch_arc done file now) encode

module _ (floats : Floats) where
  answer_sys_info : Option (SysInfo floats) → (SysInfo floats → Coded Bytes) → Bytes × ℕ
  unfolding encoded
  answer_sys_info none encode = (
    err_body "Failed to gather system information. The host may not expose /proc (non-Linux).",
    internal_server_error,
  )
  answer_sys_info (some s) encode = encoded (encode s) "Failed to encode system information."

  -- `produceSysInfo`
  unfoldable pub produce_sys_info : (SysInfo floats → Coded Bytes) → Bool → Host → Bytes × ℕ
  unfolding answer_sys_info
  produce_sys_info encode done host = answer_sys_info (fetch_sys_info floats done host) encode

-- A failure of smartctl counts only if it printed nothing.
smartctl_result {ℓ} : {A : Type ℓ} → Bytes → Bytes → (Bytes → Coded A) → Output → Fetched A
unfolding parsed equal
smartctl_result exec_text parse_text decode o = elim o.err [
  | none ↦ parsed parse_text (decode o.out)
  | some e ↦
      if equal o.out []
      then failed (exec_text ++ (codes ": " ++ e))
      else parsed parse_text (decode o.out)
]

-- `fetchSmartScan`
unfoldable pub fetch_smart_scan : (Bytes → Coded RawSmartScan) → Output → Fetched RawSmartScan
unfolding smartctl_result
fetch_smart_scan = smartctl_result (codes "smartctl scan exec") (codes "parse smartctl scan json")

normalised : Fetched RawSmartAll → Fetched SmartDetails
normalised (failed e) = failed e
normalised (got raw) = got (parse_smart_all raw)

-- `fetchSmartDevice`
unfoldable pub fetch_smart_device :
    (Bytes → Coded RawSmartAll) → Bytes → Output → Fetched SmartDetails
unfolding smartctl_result normalised
fetch_smart_device decode dev o =
    normalised (
      smartctl_result (codes "smartctl exec " ++ dev) (codes "parse smartctl json " ++ dev) decode
        o)

-- `json.Marshal(report)` with its error dropped
or_nil : Coded Bytes → Bytes
or_nil (coded body) = body
or_nil (broken _) = []

answer_smart : (SmartReport → Coded Bytes) → SmartReport → Bytes × ℕ
unfolding encoded or_nil
answer_smart encode report =
    if report.smartctl_available
    then encoded (encode report) "Failed to encode SMART report."
    else (or_nil (encode report), 200)

-- `produceSmart`: the scan's output, the probe of each device, and the order in which probes finish
unfoldable pub produce_smart :
    (SmartReport → Coded Bytes)
    → (Bytes → Coded RawSmartScan)
    → (Bytes → Fetched SmartDetails)
    → ℕ
    → List ℕ
    → Output
    → Bytes × ℕ
unfolding answer_smart
produce_smart encode decode probe now order o =
    answer_smart encode (smart_report probe now order (fetch_smart_scan decode o))
