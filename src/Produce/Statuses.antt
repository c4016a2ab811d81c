-- ===== src/Produce/Statuses.antt =====
-- Which statuses the producers answer with, and when.
use zdash.Prelude.{
  ℕ, ◌≡◌, ◌≢◌, ◌⊎◌, inl, inr, refl, true, false, List, [], Option, none, some, Bytes, equal_iff,
  arith, length, ◌<◌,
}
use zdash.Smart.{RawSmartAll, SmartDetails}
use zdash.Smart.Report.{
  RawSmartScan, Fetched, got, failed, SmartReport, smart_report, in_scan_order,
}
use zdash.Smart.Report.Order.{finishes, probe_all_deterministic}
use zdash.Produce.{
  Output, Coded, coded, broken, produce_zpool, fetch_smart_scan, fetch_smart_device, answer_smart,
  produce_smart,
}

module _ {ℓ} {Z : Type ℓ} (decode : Bytes → Coded Z) (encode : Z → Coded Bytes) (o : Output) where
  -- zpool succeeded, and its output decodes and encodes.
  pub data ZpoolAnswers (body : Bytes) : Type ℓ where
    answers :
        (z : Z) → o.err ≡ none → decode o.out ≡ coded z → encode z ≡ coded body → ZpoolAnswers body

  -- One of the three failed.
  pub data ZpoolFails : Type ℓ where
    exec_fails : (e : Bytes) → o.err ≡ some e → ZpoolFails
    decode_fails : (e : Bytes) → decode o.out ≡ broken e → ZpoolFails
    encode_fails : (z : Z) (e : Bytes) → decode o.out ≡ coded z → encode z ≡ broken e → ZpoolFails

  abbrev Judged : Type ℓ
  Judged =
      ((body : Bytes) × ZpoolAnswers body × (produce_zpool decode encode o ≡ (body, 200)))
      ⊎ (ZpoolFails × ((produce_zpool decode encode o).1 ≡ 500))

  by_encode :
      (z : Z) (c : Coded Bytes) → o.err ≡ none → decode o.out ≡ coded z → encode z ≡ c → Judged
  unfolding produce_zpool
  by_encode z (coded body) e d c = inl (body, answers z e d c, ground arith)
  by_encode z (broken b) e d c = inr (encode_fails z b d c, ground arith)

  by_decode : (c : Coded Z) → o.err ≡ none → decode o.out ≡ c → Judged
  unfolding produce_zpool
  by_decode (coded z) e d = by_encode z (encode z) e d refl
  by_decode (broken b) e d = inr (decode_fails b d, ground arith)

  by_exec : (err : Option Bytes) → o.err ≡ err → Judged
  unfolding produce_zpool
  by_exec none e = by_decode (decode o.out) e refl
  by_exec (some b) e = inr (exec_fails b e, ground arith)

  -- The pools are answered with status 200 and the encoding exactly where zpool succeeds and its
  -- output decodes and encodes; where any of the three fails the status is 500.
  produce_zpool_statuses : Judged
  produce_zpool_statuses = by_exec o.err refl

-- A drive whose smartctl fails but has printed something is read as if it had succeeded, so that a
-- failing drive is shown.
fetch_smart_device_failing :
    (decode : Bytes → Coded RawSmartAll) (dev out err : Bytes)
    → out ≢ []
    → fetch_smart_device decode dev (record { out = out; err = some err })
      ≡ fetch_smart_device decode dev (record { out = out; err = none })
unfolding fetch_smart_device
fetch_smart_device_failing decode dev out err n = ground (arith, equal_iff out [])

-- A report of what the scan gave: that it failed, with no drive; or each drive it found, in order.
pub data Reports (probe : Bytes → Fetched SmartDetails)
    : Fetched RawSmartScan → SmartReport → Type 0 where
  no_scan :
      (message : Bytes) (r : SmartReport)
      → r.smartctl_available ≡ false
      → r.scan_error ≡ message
      → r.devices ≡ []
      → Reports probe (failed message) r
  scanned :
      (scan : RawSmartScan) (r : SmartReport)
      → r.smartctl_available ≡ true
      → r.devices ≡ in_scan_order probe scan.devices
      → Reports probe (got scan) r

abbrev AllFinish : List ℕ → Fetched RawSmartScan → Type 0
AllFinish order (failed message) = Unit
AllFinish order (got scan) = (i : ℕ) → i < length scan.devices → finishes i order ≡ true

smart_report-Reports :
    (probe : Bytes → Fetched SmartDetails) (now : ℕ) (order : List ℕ) (f : Fetched RawSmartScan)
    → AllFinish order f
    → Reports probe f (smart_report probe now order f)
unfolding smart_report
smart_report-Reports probe now order (failed message) all = no_scan message _ refl refl refl
smart_report-Reports probe now order (got scan) all =
    scanned scan _ refl (probe_all_deterministic probe scan.devices order all)

answer_smart_ok :
    (encode : SmartReport → Coded Bytes) (r : SmartReport) {body : Bytes}
    → encode r ≡ coded body
    → answer_smart encode r ≡ (body, 200)
unfolding answer_smart
answer_smart_ok encode r e = ground arith

-- Where the probe of every scanned drive finishes, in whatever order, and the report encodes: the
-- answer has status 200 also when the scan fails, as on a host with no smartctl, and the report
-- then says so and lists no drive; otherwise it lists every scanned drive, in scan order.
pub produce_smart-Reports :
    (encode : SmartReport → Coded Bytes) (decode : Bytes → Coded RawSmartScan)
    (probe : Bytes → Fetched SmartDetails) (now : ℕ) (order : List ℕ) (o : Output) (body : Bytes)
    → AllFinish order (fetch_smart_scan decode o)
    → encode (smart_report probe now order (fetch_smart_scan decode o)) ≡ coded body
    → (produce_smart encode decode probe now order o ≡ (body, 200))
      × Reports probe
          (fetch_smart_scan decode o)
          (smart_report probe now order (fetch_smart_scan decode o))
unfolding produce_smart
produce_smart-Reports encode decode probe now order o body all e =
    (answer_smart_ok encode _ e, smart_report-Reports probe now order _ all)
