-- ===== src/SysInfo/Memory/Fields.antt =====
-- Which line each result of `parseMemInfo` comes from, and the bound on the used memory.
use zdash.Prelude.{
  ℕ, ◌+◌, ◌≤◌, ◌<◌, ◌≡◌, refl, ap, ◌∙◌, Bool, true, false, ◌&&◌, List, [], ◌∷◌, Option, none, some,
  ◌==◌, Bytes, codes, arith, ◌⊎◌, inl, inr,
}
use zdash.Text.{split, has_prefix}
use zdash.SysInfo.Memory.{
  MemInfo, scan, or_else, read_line, read_lines, no_memory, parse_mem_info, used_bytes,
}

-- One text is a prefix of the other, as far as both go.
abbrev agree : Bytes → Bytes → Bool
agree [] q = true
agree (a ∷ p) [] = true
agree (a ∷ p) (b ∷ q) = a == b && agree p q

has_prefix-agree :
    (s p q : Bytes) → has_prefix s p ≡ true → has_prefix s q ≡ true → agree p q ≡ true
unfolding has_prefix
has_prefix-agree s [] q h k = refl
has_prefix-agree s (a ∷ p) [] h k = refl
has_prefix-agree [] (a ∷ p) (b ∷ q) h k = cc
has_prefix-agree (c ∷ s) (a ∷ p) (b ∷ q) h k = ground (arith, has_prefix-agree s p q)

scan-has_prefix :
    (line prefix : Bytes) {v : ℕ} → scan line prefix ≡ some v → has_prefix line prefix ≡ true
unfolding scan
scan-has_prefix line prefix h = ground arith

-- A line that one key claims is no line of another key.
scan_excludes : (line p q : Bytes) → agree p q ≡ false → (scan line p ≡ none) ⊎ (scan line q ≡ none)
scan_excludes line p q n = by_results (scan line p) (scan line q) refl refl
  where
    by_results : (a b : Option ℕ) → scan line p ≡ a → scan line q ≡ b → (a ≡ none) ⊎ (b ≡ none)
    by_results none b ea eb = inl refl
    by_results (some v) none ea eb = inr refl
    by_results (some v) (some w) ea eb = absurd (
        ground (
          arith,
          has_prefix-agree line p q (scan-has_prefix line p ea) (scan-has_prefix line q eb),
        ))

-- The value of the last line that `pick` reads, or `d`.
abbrev pub last_of : (Bytes → Option ℕ) → List Bytes → ℕ → ℕ
last_of pick [] d = d
last_of pick (line ∷ lines) d = last_of pick lines (or_else (pick line) (λ v. v) d)

read_line-total :
    (line : Bytes) (m : MemInfo)
    → (read_line line m).total ≡ or_else (scan line (codes "MemTotal:")) (λ v. v) m.total
unfolding read_line
read_line-total line m = ground arith

read_line-free :
    (line : Bytes) (m : MemInfo)
    → (read_line line m).free ≡ or_else (scan line (codes "MemFree:")) (λ v. v) m.free
unfolding read_line
read_line-free line m =
    ground (arith, scan_excludes line (codes "MemTotal:") (codes "MemFree:") refl)

read_line-available :
    (line : Bytes) (m : MemInfo)
    → (read_line line m).available
      ≡ or_else (scan line (codes "MemAvailable:")) (λ v. v) m.available
unfolding read_line
read_line-available line m = ground (
  arith,
  scan_excludes line (codes "MemTotal:") (codes "MemAvailable:") refl,
  scan_excludes line (codes "MemFree:") (codes "MemAvailable:") refl,
)

read_line-cached :
    (line : Bytes) (m : MemInfo)
    → (read_line line m).cached ≡ or_else (scan line (codes "Cached:")) (λ v. v) m.cached
unfolding read_line
read_line-cached line m = ground (
  arith,
  scan_excludes line (codes "MemTotal:") (codes "Cached:") refl,
  scan_excludes line (codes "MemFree:") (codes "Cached:") refl,
  scan_excludes line (codes "MemAvailable:") (codes "Cached:") refl,
)

read_line-swap_total :
    (line : Bytes) (m : MemInfo)
    → (read_line line m).swap_total ≡ or_else (scan line (codes "SwapTotal:")) (λ v. v) m.swap_total
unfolding read_line
read_line-swap_total line m = ground (
  arith,
  scan_excludes line (codes "MemTotal:") (codes "SwapTotal:") refl,
  scan_excludes line (codes "MemFree:") (codes "SwapTotal:") refl,
  scan_excludes line (codes "MemAvailable:") (codes "SwapTotal:") refl,
  scan_excludes line (codes "Cached:") (codes "SwapTotal:") refl,
)

read_line-swap_free :
    (line : Bytes) (m : MemInfo)
    → (read_line line m).swap_free ≡ or_else (scan line (codes "SwapFree:")) (λ v. v) m.swap_free
unfolding read_line
read_line-swap_free line m = ground (
  arith,
  scan_excludes line (codes "MemTotal:") (codes "SwapFree:") refl,
  scan_excludes line (codes "MemFree:") (codes "SwapFree:") refl,
  scan_excludes line (codes "MemAvailable:") (codes "SwapFree:") refl,
  scan_excludes line (codes "Cached:") (codes "SwapFree:") refl,
  scan_excludes line (codes "SwapTotal:") (codes "SwapFree:") refl,
)

-- A field that each line updates by its own key holds, in the end, the last value of that key.
read_lines-field :
    (field : MemInfo → ℕ) (key : Bytes)
    → ((line : Bytes) (m : MemInfo)
        → field (read_line line m) ≡ or_else (scan line key) (λ v. v) (field m))
    → (lines : List Bytes) (m : MemInfo)
    → field (read_lines lines m) ≡ last_of (λ line. scan line key) lines (field m)
unfolding read_lines
read_lines-field field key h [] m = refl
read_lines-field field key h (line ∷ lines) m =
    read_lines-field field key h lines (read_line line m)
    ∙ ap (last_of (λ l. scan l key) lines) (h line m)

-- Each of the six results is the value of the last line that starts with its key and reads as a
-- number, in bytes, and 0 if there is none: no line sets another key's result, whatever their order.
pub parse_mem_info_fields :
    (raw : Bytes)
    → let lines = split b'\n' raw in
      let value = λ (key : Bytes). last_of (λ line. scan line key) lines 0 in
      let m = parse_mem_info raw in
      (m.total ≡ value (codes "MemTotal:"))
      × (m.free ≡ value (codes "MemFree:"))
      × (m.available ≡ value (codes "MemAvailable:"))
      × (m.cached ≡ value (codes "Cached:"))
      × (m.swap_total ≡ value (codes "SwapTotal:"))
      × (m.swap_free ≡ value (codes "SwapFree:"))
unfolding parse_mem_info
parse_mem_info_fields raw =
    let lines = split b'\n' raw in
    (
      read_lines-field (λ m. m.total) (codes "MemTotal:") read_line-total lines no_memory,
      read_lines-field (λ m. m.free) (codes "MemFree:") read_line-free lines no_memory,
      read_lines-field (λ m. m.available) (codes "MemAvailable:") read_line-available lines
          no_memory,
      read_lines-field (λ m. m.cached) (codes "Cached:") read_line-cached lines no_memory,
      read_lines-field (λ m. m.swap_total) (codes "SwapTotal:") read_line-swap_total lines
          no_memory,
      read_lines-field (λ m. m.swap_free) (codes "SwapFree:") read_line-swap_free lines no_memory,
    )

-- The used memory never exceeds the total, on either branch and whatever the file says; and where
-- the available memory is not 0 and within the total, the two add up to it.
pub used_bytes-le-total :
    (m : MemInfo)
    → (used_bytes m ≤ m.total)
      × ((m.available ≡ 0) ⊎ (m.total < m.available) ⊎ (used_bytes m + m.available ≡ m.total))
unfolding used_bytes
used_bytes-le-total m = ground arith
