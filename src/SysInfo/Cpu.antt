-- ===== src/SysInfo/Cpu.antt =====
-- `parseCPUInfo`, `parseLoadAvg`, `parseUptime`, `parseBtime` and `khzToMHz`.
pub mod Fields
use zdash.Prelude.{
  ℕ, ◌+◌, Bool, true, false, List, [], ◌∷◌, Option, none, some, if◌then◌else◌, Bytes, codes, equal,
}
use zdash.Prelude.Int.{ℤ, pos, eq_int}
use zdash.Text.{trim_space, split, fields, cut, cut_prefix, has_prefix}
use zdash.Text.Numbers.{atoi, parse_int}
use zdash.SysInfo.Floats.{Floats}

behind_colon : Option (Bytes × Bytes) → Option Bytes
behind_colon none = none
behind_colon (some (_, val)) = some (trim_space val)

colon_value : Option Bytes → Option Bytes
unfolding behind_colon
colon_value none = none
colon_value (some rest) = behind_colon (cut rest (codes ":"))

-- `key : value`, the value trimmed
unfoldable pub labelled : Bytes → Bytes → Option Bytes
unfolding colon_value
labelled line key = colon_value (cut_prefix line key)

abbrev or_keep {ℓ κ} : {A : Type ℓ} {B : Type κ} → Option A → (A → B) → B → B
or_keep none f b = b
or_keep (some a) f b = f a

abbrev and_then {ℓ κ} : {A : Type ℓ} {B : Type κ} → Option A → (A → Option B) → Option B
and_then none f = none
and_then (some a) f = f a

module _ (floats : Floats) where
  open floats use {Float, zero_float, parse_float, eq_zero, div_1000}

  -- The results of `parseCPUInfo`.
  pub record CpuInfo : Type 0 where
    pub model : Bytes
    pub vendor : Bytes
    pub logical : ℕ
    pub physical : ℤ
    pub freq_mhz : Float

  -- `ParseFloat` where the error is tested
  float_of : Float × Bool → Option Float
  float_of (f, true) = some f
  float_of (f, false) = none

  unfoldable pub checked_float : Bytes → Option Float
  unfolding float_of
  checked_float s = float_of (parse_float s)

  set_model : Bytes → CpuInfo → CpuInfo
  set_model line c =
      if equal c.model []
      then or_keep (labelled line (codes "model name")) (λ v. record c { model = v }) c
      else c

  set_vendor : Bytes → CpuInfo → CpuInfo
  set_vendor line c =
      if equal c.vendor []
      then or_keep (labelled line (codes "vendor_id")) (λ v. record c { vendor = v }) c
      else c

  set_physical : Bytes → CpuInfo → CpuInfo
  set_physical line c =
      if eq_int c.physical (pos 0)
      then or_keep (and_then (labelled line (codes "cpu cores")) atoi)
          (λ n. record c { physical = n }) c
      else c

  set_freq : Bytes → CpuInfo → CpuInfo
  set_freq line c =
      if eq_zero c.freq_mhz
      then or_keep (and_then (labelled line (codes "cpu MHz")) checked_float)
          (λ f. record c { freq_mhz = f }) c
      else c

  count_logical : Bytes → CpuInfo → CpuInfo
  count_logical line c =
      if has_prefix line (codes "processor") then record c { logical = c.logical + 1 } else c

  -- one round of the loop
  pub cpu_line : Bytes → CpuInfo → CpuInfo
  cpu_line raw c =
      let line = trim_space raw in
      count_logical line (set_freq line (set_physical line (set_vendor line (set_model line c))))

  unfoldable pub cpu_lines : List Bytes → CpuInfo → CpuInfo
  cpu_lines [] c = c
  cpu_lines (line ∷ lines) c = cpu_lines lines (cpu_line line c)

  abbrev pub no_cpu : CpuInfo
  no_cpu = record { model = []; vendor = []; logical = 0; physical = pos 0; freq_mhz = zero_float }

  -- `parseCPUInfo`
  unfoldable pub parse_cpu_info : Bytes → CpuInfo
  unfolding cpu_lines
  parse_cpu_info raw = cpu_lines (split b'\n' raw) no_cpu

  or_zero : Option Float → Float
  or_zero none = zero_float
  or_zero (some f) = f

  first_float : List Bytes → Float
  first_float [] = zero_float
  first_float (f ∷ _) = or_zero (checked_float f)

  -- `parseUptime`
  unfoldable pub parse_uptime : Bytes → Float
  unfolding first_float or_zero
  parse_uptime raw = first_float (fields raw)

  three_floats : List Bytes → Float × Float × Float
  three_floats (a ∷ b ∷ c ∷ _) = ((parse_float a).0, (parse_float b).0, (parse_float c).0)
  three_floats _ = (zero_float, zero_float, zero_float)

  -- `parseLoadAvg`, which ignores the errors
  unfoldable pub parse_load_avg : Bytes → Float × Float × Float
  unfolding three_floats
  parse_load_avg raw = three_floats (fields raw)

  scaled_khz : Option Float → Float
  scaled_khz none = zero_float
  scaled_khz (some f) = div_1000 f

  -- `khzToMHz`
  unfoldable pub khz_to_mhz : Bytes → Float
  unfolding scaled_khz checked_float
  khz_to_mhz s = scaled_khz (checked_float (trim_space s))

int_or_zero : Option ℤ → ℤ
int_or_zero none = pos 0
int_or_zero (some n) = n

unfoldable pub first_btime : List Bytes → ℤ
unfolding int_or_zero
first_btime [] = pos 0
first_btime (line ∷ lines) = elim (cut_prefix (trim_space line) (codes "btime ")) [
  | none ↦ first_btime lines
  | some v ↦ int_or_zero (parse_int (trim_space v))
]

-- `parseBtime`
unfoldable pub parse_btime : Bytes → ℤ
unfolding first_btime
parse_btime raw = first_btime (split b'\n' raw)
