-- ===== src/SysInfo/Cpu/Fields.antt =====
-- Which lines of /proc/cpuinfo the results of `parseCPUInfo` come from.
use zdash.Prelude.{
  ℕ, ◌+◌, ◌≡◌, refl, ap, ◌∙◌, Bool, true, List, [], ◌∷◌, Option, none, some, if◌then◌else◌, Bytes,
  codes, equal, equal_iff, arith,
}
use zdash.Prelude.Int.{ℤ, pos, negsuc, eq_int}
use zdash.Text.{trim_space, split, has_prefix}
use zdash.Text.Numbers.{atoi}
use zdash.SysInfo.Floats.{Floats}
use zdash.SysInfo.Cpu.{
  labelled, and_then, CpuInfo, set_model, set_vendor, set_physical, set_freq, count_logical,
  cpu_line, cpu_lines, no_cpu, parse_cpu_info,
}

-- A value that is there takes the place of one that is not set.
abbrev set_while {ℓ} : {A : Type ℓ} → (A → Bool) → Option A → A → A
set_while is_unset none a = a
set_while is_unset (some b) a = if is_unset a then b else a

module _ {ℓ} {A : Type ℓ} (is_unset : A → Bool) (pick : Bytes → Option A) where
  -- `a`, if it is there and set
  abbrev or_next : Option A → A → A
  or_next none rest = rest
  or_next (some a) rest = if is_unset a then rest else a

  -- The first value that `pick` reads and that is set, or `unset`.
  abbrev pub first_set : A → List Bytes → A
  first_set unset [] = unset
  first_set unset (line ∷ lines) = or_next (pick (trim_space line)) (first_set unset lines)

  module _ (floats : Floats) (field : CpuInfo floats → A) (unset : A) where
    -- A field that each line sets while it is unset holds the first value that is set.
    cpu_lines-field :
        ((a : A) → is_unset a ≡ true → a ≡ unset)
        → is_unset unset ≡ true
        → ((line : Bytes) (c : CpuInfo floats)
            → field (cpu_line floats line c)
              ≡ set_while is_unset (pick (trim_space line)) (field c))
        → (lines : List Bytes) (c : CpuInfo floats)
        → field (cpu_lines floats lines c)
          ≡ (if is_unset (field c) then first_set unset lines else field c)
    unfolding cpu_lines
    cpu_lines-field only u h [] c = ground (arith, only (field c))
    cpu_lines-field only u h (line ∷ lines) c =
        ground
          (arith, h line c, only (field c), cpu_lines-field only u h lines (cpu_line floats line c))

abbrev pub is_empty : Bytes → Bool
is_empty s = equal s []

abbrev pub is_zero : ℤ → Bool
is_zero n = eq_int n (pos 0)

abbrev pub cores_of : Bytes → Option ℤ
cores_of line = and_then (labelled line (codes "cpu cores")) atoi

-- The lines that start with "processor".
abbrev pub processors : List Bytes → ℕ
processors [] = 0
processors (line ∷ lines) =
    processors lines + (if has_prefix (trim_space line) (codes "processor") then 1 else 0)

is_zero_pos : (n : ℤ) → is_zero n ≡ true → n ≡ pos 0
is_zero_pos (pos n) h = ground arith
is_zero_pos (negsuc n) h = absurd (ground arith)

-- What each step of a round does to these four results.
module _ (floats : Floats) where
  set_model-fields :
      (line : Bytes) (c : CpuInfo floats)
      → let c' = set_model floats line c in
        (c'.model ≡ set_while is_empty (labelled line (codes "model name")) c.model)
        × (c'.vendor ≡ c.vendor)
        × (c'.physical ≡ c.physical)
        × (c'.logical ≡ c.logical)
  unfolding set_model
  set_model-fields line c = ground arith

  set_vendor-fields :
      (line : Bytes) (c : CpuInfo floats)
      → let c' = set_vendor floats line c in
        (c'.model ≡ c.model)
        × (c'.vendor ≡ set_while is_empty (labelled line (codes "vendor_id")) c.vendor)
        × (c'.physical ≡ c.physical)
        × (c'.logical ≡ c.logical)
  unfolding set_vendor
  set_vendor-fields line c = ground arith

  set_physical-fields :
      (line : Bytes) (c : CpuInfo floats)
      → let c' = set_physical floats line c in
        (c'.model ≡ c.model)
        × (c'.vendor ≡ c.vendor)
        × (c'.physical ≡ set_while is_zero (cores_of line) c.physical)
        × (c'.logical ≡ c.logical)
  unfolding set_physical
  set_physical-fields line c = ground arith

  set_freq-fields :
      (line : Bytes) (c : CpuInfo floats)
      → let c' = set_freq floats line c in
        (c'.model ≡ c.model)
        × (c'.vendor ≡ c.vendor)
        × (c'.physical ≡ c.physical)
        × (c'.logical ≡ c.logical)
  unfolding set_freq
  set_freq-fields line c = ground arith

  count_logical-fields :
      (line : Bytes) (c : CpuInfo floats)
      → let c' = count_logical floats line c in
        (c'.model ≡ c.model)
        × (c'.vendor ≡ c.vendor)
        × (c'.physical ≡ c.physical)
        × (c'.logical ≡ c.logical + (if has_prefix line (codes "processor") then 1 else 0))
  unfolding count_logical
  count_logical-fields line c = ground arith

  cpu_line-fields :
      (line : Bytes) (c : CpuInfo floats)
      → let c' = cpu_line floats line c in
        let text = trim_space line in
        (c'.model ≡ set_while is_empty (labelled text (codes "model name")) c.model)
        × (c'.vendor ≡ set_while is_empty (labelled text (codes "vendor_id")) c.vendor)
        × (c'.physical ≡ set_while is_zero (cores_of text) c.physical)
        × (c'.logical ≡ c.logical + (if has_prefix text (codes "processor") then 1 else 0))
  unfolding cpu_line
  cpu_line-fields line c =
      let text = trim_space line in
      let c1 = set_model floats text c in
      let c2 = set_vendor floats text c1 in
      let c3 = set_physical floats text c2 in
      let c4 = set_freq floats text c3 in
      let (m1, v1, p1, l1) = set_model-fields text c in
      let (m2, v2, p2, l2) = set_vendor-fields text c1 in
      let (m3, v3, p3, l3) = set_physical-fields text c2 in
      let (m4, v4, p4, l4) = set_freq-fields text c3 in
      let (m5, v5, p5, l5) = count_logical-fields text c4 in
      (
        m5 ∙ m4 ∙ m3 ∙ m2 ∙ m1,
        v5 ∙ v4 ∙ v3 ∙ v2 ∙ ap (set_while is_empty _) v1,
        p5 ∙ p4 ∙ p3 ∙ ap (set_while is_zero _) (p2 ∙ p1),
        l5 ∙ ap (λ n. n + _) (l4 ∙ l3 ∙ l2 ∙ l1),
      )

  cpu_lines-logical :
      (lines : List Bytes) (c : CpuInfo floats)
      → (cpu_lines floats lines c).logical ≡ c.logical + processors lines
  unfolding cpu_lines
  cpu_lines-logical [] c = ground arith
  cpu_lines-logical (line ∷ lines) c =
      let (_, _, _, one) = cpu_line-fields line c in
      omega (arith, one, cpu_lines-logical lines (cpu_line floats line c))

-- The model and the vendor are the first values of their keys that are not empty, the number of
-- physical cores is the first that reads as a number other than 0, and the logical cores are the
-- lines that start with "processor"; whatever stands on the other lines.
pub parse_cpu_info_fields :
    (floats : Floats) (raw : Bytes)
    → let lines = split b'\n' raw in
      let c = parse_cpu_info floats raw in
      (c.model ≡ first_set is_empty (λ line. labelled line (codes "model name")) [] lines)
      × (c.vendor ≡ first_set is_empty (λ line. labelled line (codes "vendor_id")) [] lines)
      × (c.physical ≡ first_set is_zero cores_of (pos 0) lines)
      × (c.logical ≡ processors lines)
unfolding parse_cpu_info equal
parse_cpu_info_fields floats raw =
    let lines = split b'\n' raw in
    (
      cpu_lines-field is_empty (λ line. labelled line (codes "model name")) floats (λ c. c.model) []
          (λ s. (equal_iff s []).0) refl (λ line c. (cpu_line-fields floats line c).0) lines
          (no_cpu floats),
      cpu_lines-field is_empty (λ line. labelled line (codes "vendor_id")) floats (λ c. c.vendor) []
          (λ s. (equal_iff s []).0) refl (λ line c. (cpu_line-fields floats line c).1) lines
          (no_cpu floats),
      cpu_lines-field is_zero cores_of floats (λ c. c.physical) (pos 0) is_zero_pos refl
          (λ line c. (cpu_line-fields floats line c).2) lines (no_cpu floats),
      omega (arith, cpu_lines-logical floats lines (no_cpu floats)),
    )
