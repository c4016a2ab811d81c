-- ===== src/Smart/Details.antt =====
-- What `parseSmartAll` keeps of smartctl's output.
use zdash.Prelude.{
  ℕ, ◌≡◌, refl, sym, ◌∙◌, List, [], ◌∷◌, ◌++◌, append_assoc, append-nil, Option, none, some, map,
}
use zdash.Smart.{
  RawNvme, RawSmartAll, RawAttribute, RawSelfTest, AtaAttribute, attribute_of, collect, last_test,
  parse_smart_all,
}

-- The counters of a drive and of its NVMe log, if it has one.
abbrev pub log_hours : Option RawNvme → ℕ
log_hours none = 0
log_hours (some h) = h.power_on_hours

abbrev pub log_cycles : Option RawNvme → ℕ
log_cycles none = 0
log_cycles (some h) = h.power_cycles

collect-map :
    (table : List RawAttribute) (done : List AtaAttribute)
    → collect done table ≡ done ++ map attribute_of table
unfolding collect
collect-map [] done = sym (append-nil done)
collect-map (a ∷ table) done =
    collect-map table (done ++ attribute_of a ∷ []) ∙ append_assoc done (attribute_of a ∷ []) _

last_test-concat :
    (pre : List RawSelfTest) (t : RawSelfTest) → last_test (pre ++ t ∷ []) ≡ last_test (t ∷ [])
unfolding last_test
last_test-concat [] t = refl
last_test-concat (a ∷ []) t = refl
last_test-concat (a ∷ b ∷ pre) t = last_test-concat (b ∷ pre) t

-- A drive with an attribute table and a self-test log gets one attribute per row, in the order of
-- the table, and as its self-test the last row of the log, whatever rows stand before it.
pub parse_smart_all_ata :
    (raw : RawSmartAll) (table : List RawAttribute) (pre : List RawSelfTest) (t : RawSelfTest)
    → raw.ata_attributes ≡ some table
    → raw.ata_self_test_log ≡ some (pre ++ t ∷ [])
    → (parse_smart_all raw).ata
      ≡ some (record {
        attributes = map attribute_of table;
        self_test = record {
          passed = t.passed;
          status_string = t.string;
          hours = t.lifetime_hours;
        };
      })
unfolding parse_smart_all
parse_smart_all_ata raw table pre t e l =
    rw (e, l, collect-map table [], last_test-concat pre t) (unfold last_test in refl)
