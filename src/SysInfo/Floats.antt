-- ===== src/SysInfo/Floats.antt =====
-- What sysinfo.go uses of `float64`, which the model takes as a parameter.
use zdash.Prelude.{ℕ, Bool, Bytes}

pub record Floats : Type 1 where
  pub Float : Type 0
  pub zero_float : Float
  -- `strconv.ParseFloat(s, 64)`: its value (set on a range error, too) and whether it gave no error
  pub parse_float : Bytes → Float × Bool
  pub eq_zero : Float → Bool  -- `f == 0`
  pub lt_one : Float → Bool  -- `f < 1`
  pub to_uint64 : Float → ℕ  -- `uint64(f)`
  pub div_1000 : Float → Float  -- `f / 1000`
