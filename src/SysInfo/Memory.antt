-- ===== src/SysInfo/Memory.antt =====
-- `parseMemInfo`, `satSub` and the derivation of the used memory in `fetchSysInfo`.
pub mod Fields
use zdash.Prelude.{
  ℕ, ◌+◌, ◌-◌, ◌*◌, ◌%◌, ◌^◌, Bool, true, false, List, [], ◌∷◌, Option, none, some, ltb, leb,
  if◌then◌else◌, Bytes, codes,
}
use zdash.Text.{split, fields, has_prefix}
use zdash.Text.Numbers.{parse_uint}

-- The results of `parseMemInfo`, in bytes.
pub record MemInfo : Type 0 where
  pub total : ℕ
  pub free : ℕ
  pub available : ℕ
  pub cached : ℕ
  pub swap_total : ℕ
  pub swap_free : ℕ

-- kB to bytes, in uint64
abbrev scaled : Option ℕ → Option ℕ
scaled none = none
scaled (some v) = some (v * 1024 % 2 ^ 64)

second_field : List Bytes → Option ℕ
second_field (_ ∷ v ∷ _) = scaled (parse_uint v)
second_field _ = none

-- the closure `scan`
unfoldable pub scan : Bytes → Bytes → Option ℕ
unfolding second_field
scan line prefix = if has_prefix line prefix then second_field (fields line) else none

abbrev or_else {ℓ} : {A : Type ℓ} → Option ℕ → (ℕ → A) → A → A
or_else none f a = a
or_else (some v) f a = f v

-- one round of the loop: the chain of `else if`
unfoldable pub read_line : Bytes → MemInfo → MemInfo
read_line line m =
    or_else (scan line (codes "MemTotal:")) (λ v. record m { total = v })
      (or_else (scan line (codes "MemFree:")) (λ v. record m { free = v })
        (or_else (scan line (codes "MemAvailable:")) (λ v. record m { available = v })
          (or_else (scan line (codes "Cached:")) (λ v. record m { cached = v })
            (or_else (scan line (codes "SwapTotal:")) (λ v. record m { swap_total = v })
              (or_else (scan line (codes "SwapFree:")) (λ v. record m { swap_free = v }) m)))))

unfoldable pub read_lines : List Bytes → MemInfo → MemInfo
read_lines [] m = m
read_lines (line ∷ lines) m = read_lines lines (read_line line m)

abbrev pub no_memory : MemInfo
no_memory = record { total = 0; free = 0; available = 0; cached = 0; swap_total = 0; swap_free = 0 }

-- `parseMemInfo`
unfoldable pub parse_mem_info : Bytes → MemInfo
unfolding read_lines
parse_mem_info raw = read_lines (split b'\n' raw) no_memory

-- `satSub`
unfoldable pub sat_sub : ℕ → ℕ → ℕ
sat_sub a b = if leb a b then 0 else a - b

-- `s.MemoryUsedBytes`; the sum of free and cached memory is one in uint64.
unfoldable pub used_bytes : MemInfo → ℕ
unfolding sat_sub
used_bytes m =
    if ltb 0 m.available
    then sat_sub m.total m.available
    else sat_sub m.total ((m.free + m.cached) % 2 ^ 64)
