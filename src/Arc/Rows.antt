-- ===== src/Arc/Rows.antt =====
-- What the loop of `parseARCStats` collects, described by the lines of the file alone.
use zdash.Prelude.{
  ℕ, ◌≡◌, ◌≢◌, refl, ap, ◌⊎◌, inl, inr, List, [], ◌∷◌, ◌++◌, Option, none, some, map, arith, Bytes,
  equal, equal_iff, All, length, ◌<◌, Bool-cases,
}
use zdash.Text.{trim_space, split}
use zdash.Arc.{
  ArcMetrics, json_fields, Kv, value_of, parse_row, add_row, parse_rows, metrics_of, ok, err,
  truncated, parse_lines, parse_arc_stats,
}

-- No line of these is a row of `key`.
abbrev pub Lacks : Bytes → List Bytes → Type 0
Lacks key = All (λ line. (v : ℕ) → parse_row line ≢ some (key, v))

-- The value of `key`: that of its last row in the lines, or the one it had before.
pub data LastRow (key : Bytes) (before : ℕ) (lines : List Bytes) (v : ℕ) : Type 0 where
  row :
      (pre : List Bytes) (line : Bytes) (post : List Bytes)
      → lines ≡ pre ++ line ∷ post
      → parse_row line ≡ some (key, v)
      → Lacks key post
      → LastRow key before lines v
  no_row : Lacks key lines → v ≡ before → LastRow key before lines v

module _ (key : Bytes) (line : Bytes) (lines : List Bytes) (v : ℕ) where
  -- one more line in front, by what the line is
  LastRow-skip :
      (d : ℕ)
      → ((w : ℕ) → parse_row line ≢ some (key, w))
      → LastRow key d lines v
      → LastRow key d (line ∷ lines) v
  LastRow-skip d n (row pre l post e r post_lacks) =
      row (line ∷ pre) l post (ap (◌∷◌ line) e) r post_lacks
  LastRow-skip d n (no_row lacks e) = no_row (n, lacks) e

  LastRow-hit :
      (d w : ℕ)
      → parse_row line ≡ some (key, w)
      → LastRow key w lines v
      → LastRow key d (line ∷ lines) v
  LastRow-hit d w h (row pre l post e r post_lacks) =
      row (line ∷ pre) l post (ap (◌∷◌ line) e) r post_lacks
  LastRow-hit d w h (no_row lacks e) = row [] line lines refl (rw e h) lacks

  LastRow-cons :
      (kv : Kv) (found : Option (Bytes × ℕ))
      → parse_row line ≡ found
      → LastRow key (value_of key (add_row found kv)) lines v
      → LastRow key (value_of key kv) (line ∷ lines) v
  unfolding value_of
  LastRow-cons kv none e l = LastRow-skip _ (λ w h. cc) l
  LastRow-cons kv (some (k, w)) e l = elim (Bool-cases (equal k key)) [
    | inl same ↦ LastRow-hit _ w (ground (arith, equal_iff k key)) (rw same at l)
    | inr other ↦ LastRow-skip _ (λ u h. ground (arith, equal_iff k key)) (rw other at l)
  ]

parse_rows-LastRow :
    (key : Bytes) (lines : List Bytes) (kv : Kv)
    → LastRow key (value_of key kv) lines (value_of key (parse_rows lines kv))
unfolding parse_rows
parse_rows-LastRow key [] kv = no_row tt refl
parse_rows-LastRow key (line ∷ lines) kv =
    LastRow-cons key line lines _ kv (parse_row line) refl (parse_rows-LastRow key lines _)

-- Each counter of the JSON answer, by its field name.
abbrev pub Reads : List Bytes → Bytes × ℕ → Type 0
Reads rows (name, v) = LastRow name 0 rows v

Reads-each :
    (rows names : List Bytes)
    → All (Reads rows) (map (λ k. (k, value_of k (parse_rows rows []))) names)
unfolding value_of
Reads-each rows [] = tt
Reads-each rows (k ∷ names) = (parse_rows-LastRow k rows [], Reads-each rows names)

metrics-Reads :
    (rows : List Bytes) → All (Reads rows) (json_fields (metrics_of (parse_rows rows [])))
unfolding metrics_of
metrics-Reads rows = Reads-each rows (map (λ f. f.0) (json_fields (metrics_of [])))

by_lines :
    (found : List Bytes) {lines : List Bytes}
    → lines ≡ found
    → ((parse_lines lines ≡ err (truncated (length lines))) × (length lines < 2))
      ⊎ ((header columns : Bytes) × (rows : List Bytes) × (m : ArcMetrics) × (lines
            ≡ header ∷ columns ∷ rows)
          × (parse_lines lines ≡ ok m)
          × All (Reads rows) (json_fields m))
unfolding parse_lines
by_lines [] e = inl (ground arith)
by_lines (a ∷ []) e = inl (ground arith)
by_lines (header ∷ columns ∷ rows) e =
    inr (header, columns, rows, metrics_of (parse_rows rows []), e, rw e, metrics-Reads rows)

-- A kstat text is refused exactly when it has fewer than two lines; otherwise every counter of the
-- answer is the value of the last line behind the two headers that is a row of its name, and 0 if
-- no line is: lines that are no rows, and rows of other names, change nothing.
pub parse_arc_stats-Reads :
    (raw : Bytes)
    → ((parse_arc_stats raw ≡ err (truncated (length (split b'\n' (trim_space raw)))))
        × (length (split b'\n' (trim_space raw)) < 2))
      ⊎ ((header columns : Bytes) × (rows : List Bytes) × (m : ArcMetrics) × (split b'\n'
              (trim_space raw)
            ≡ header ∷ columns ∷ rows)
          × (parse_arc_stats raw ≡ ok m)
          × All (Reads rows) (json_fields m))
unfolding parse_arc_stats
parse_arc_stats-Reads raw = by_lines (split b'\n' (trim_space raw)) refl
