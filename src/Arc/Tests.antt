-- ===== src/Arc/Tests.antt =====
-- The parser on a small kstat, and the theorem at it.
use zdash.Prelude.{ℕ, ◌<◌, ◌≡◌, ◌⊎◌, refl, List, ◌∷◌, Bytes, codes, length, All, equal}
use zdash.Text.{trim_space, split, fields}
use zdash.Text.Numbers.{parse_uint, parse_int}
use zdash.Arc.{
  ArcMetrics, json_fields, parse_arc_stats, parse_rows, parse_row, value_of, Result, ok, err,
  truncated,
}
use zdash.Arc.Rows.{Reads, parse_arc_stats-Reads}

abbrev kstat : Bytes
kstat = codes "12 1 0x000f003e 0\nname  type  data\nhits  4  12\nbad\nc 4 x\nhits 4 15\n"

abbrev hits_of : Result ArcMetrics → ℕ
hits_of (ok m) = m.hits
hits_of (err e) = 0

last_row_wins : hits_of (parse_arc_stats kstat) ≡ 15
unfolding parse_arc_stats trim_space split parse_rows parse_row fields parse_int parse_uint value_of
    equal
last_row_wins = refl

parse_arc_stats-Reads_example :
    ((parse_arc_stats kstat ≡ err (truncated (length (split b'\n' (trim_space kstat)))))
      × (length (split b'\n' (trim_space kstat)) < 2))
    ⊎ ((header columns : Bytes) × (rows : List Bytes) × (m : ArcMetrics) × (split b'\n'
            (trim_space kstat)
          ≡ header ∷ columns ∷ rows)
        × (parse_arc_stats kstat ≡ ok m)
        × All (Reads rows) (json_fields m))
parse_arc_stats-Reads_example = parse_arc_stats-Reads kstat
