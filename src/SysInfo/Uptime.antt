-- ===== src/SysInfo/Uptime.antt =====
-- `formatUptime`.
pub mod Parts
use zdash.Prelude.{
  ℕ, ◌+◌, ◌*◌, ◌/◌, ◌%◌, Bool, ◌||◌, List, [], ◌∷◌, ◌++◌, ltb, if◌then◌else◌, Bytes, codes,
}
use zdash.Text.Print.{format_uint}
use zdash.SysInfo.Floats.{Floats}

-- one `Fprintf(&b, "%d<unit>", n)`, under its test
abbrev piece : Bool → ℕ → Bytes → Bytes
piece shown n unit = if shown then format_uint n ++ unit else []

-- the text for a number of whole seconds
unfoldable pub format_seconds : ℕ → Bytes
format_seconds sec =
    let d = sec / 86400 in
    let h = sec % 86400 / 3600 in
    let m = sec % 3600 / 60 in
    let s = sec % 60 in
    piece (ltb 0 d) d (codes "d ")
    ++ (piece (ltb 0 h || ltb 0 d) h (codes "h ")
        ++ (piece (ltb 0 m || ltb 0 h || ltb 0 d) m (codes "m ") ++ (format_uint s ++ codes "s")))

-- `formatUptime`
unfoldable pub format_uptime : (floats : Floats) → floats.Float → Bytes
unfolding format_seconds
format_uptime floats sec =
    if floats.lt_one sec then codes "—" else format_seconds (floats.to_uint64 sec)
