-- ===== src/SysInfo/Uptime/Parts.antt =====
-- What `formatUptime` prints.
use zdash.Prelude.{ℕ, ◌+◌, ◌*◌, ◌/◌, ◌%◌, ◌<◌, ◌≡◌, ◌++◌, ◌⊎◌, codes, arith}
use zdash.Text.Print.{format_uint}
use zdash.SysInfo.Uptime.{format_seconds}

-- The number of seconds is split into days, hours, minutes and seconds that add up to it, each below
-- the next unit, and the text starts with the first of days, hours and minutes that is not 0:
-- from there on every part is shown, zeros included, down to the seconds, which always are.
format_seconds_parts :
    (sec : ℕ)
    → (d h m s : ℕ) × (sec ≡ d * 86400 + h * 3600 + m * 60 + s)
      × (h < 24)
      × (m < 60)
      × (s < 60)
      × (((0 < d)
            × (format_seconds sec
                ≡ (format_uint d ++ codes "d ")
                  ++ ((format_uint h ++ codes "h ")
                      ++ ((format_uint m ++ codes "m ") ++ (format_uint s ++ codes "s")))))
          ⊎ ((d ≡ 0)
              × (0 < h)
              × (format_seconds sec
                  ≡ (format_uint h ++ codes "h ")
                    ++ ((format_uint m ++ codes "m ") ++ (format_uint s ++ codes "s"))))
          ⊎ ((d ≡ 0)
              × (h ≡ 0)
              × (0 < m)
              × (format_seconds sec
                  ≡ (format_uint m ++ codes "m ") ++ (format_uint s ++ codes "s")))
          ⊎ ((d ≡ 0) × (h ≡ 0) × (m ≡ 0) × (format_seconds sec ≡ format_uint s ++ codes "s")))
unfolding format_seconds
format_seconds_parts sec = (
  sec / 86400,
  sec % 86400 / 3600,
  sec % 3600 / 60,
  sec % 60,
  omega arith,
  omega arith,
  omega arith,
  omega arith,
  ground arith,
)
