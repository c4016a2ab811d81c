-- ===== src/Produce/Tests.antt =====
-- The producers at a decoder of one value.
use zdash.Prelude.{◌≡◌, refl, none, [], ◌∷◌, Bytes, codes}
use zdash.Prelude.Int.{pos}
use zdash.Smart.Report.{RawSmartScan, SmartReport, smart_report}
use zdash.Smart.Tests.{two_drives, no_probe, backwards, both_finish}
use zdash.Produce.{Output, Coded, coded, fetch_smart_scan, produce_smart}
use zdash.Produce.Statuses.{Reports, produce_smart-Reports}

abbrev pools : Output
pools = record { out = codes "{}"; err = none }

abbrev two_found : Bytes → Coded RawSmartScan
two_found b =
    coded (record { version = pos 7 ∷ pos 4 ∷ []; exit_status = pos 0; devices = two_drives })

abbrev empty_report : SmartReport → Coded Bytes
empty_report r = coded (codes "{}")

produce_smart-Reports_example :
    (produce_smart empty_report two_found no_probe 1000 backwards pools ≡ (codes "{}", 200))
    × Reports no_probe
        (fetch_smart_scan two_found pools)
        (smart_report no_probe 1000 backwards (fetch_smart_scan two_found pools))
unfolding fetch_smart_scan
produce_smart-Reports_example =
    produce_smart-Reports empty_report two_found no_probe 1000 backwards pools (codes "{}")
      both_finish refl
