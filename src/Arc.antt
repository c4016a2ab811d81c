-- ===== src/Arc.antt =====
-- arc.go: the ARC kstat. `parse_arc_stats` takes the file's text apart; reading the file and the clock
-- are arguments of `fetch_arc`, and the JSON encoder one of `produce_arc`.
pub mod Rows
mod Tests
use zdash.Prelude.{
  ℕ, Bool, true, false, List, [], ◌∷◌, Option, none, some, ltb, if◌then◌else◌, Bytes, codes, equal,
  length,
}
use zdash.Text.{trim_space, split, fields}
use zdash.Text.Numbers.{parse_uint, atoi}

-- `ARCMetrics`
pub record ArcMetrics : Type 0 where
  pub hits : ℕ
  pub iohits : ℕ
  pub misses : ℕ
  pub mru_hits : ℕ
  pub mru_ghost_hits : ℕ
  pub mfu_hits : ℕ
  pub mfu_ghost_hits : ℕ
  pub demand_data_hits : ℕ
  pub demand_data_misses : ℕ
  pub demand_metadata_hits : ℕ
  pub demand_metadata_misses : ℕ
  pub prefetch_data_hits : ℕ
  pub prefetch_data_misses : ℕ
  pub prefetch_meta_hits : ℕ
  pub prefetch_meta_misses : ℕ
  pub size : ℕ
  pub target_size : ℕ
  pub min_size : ℕ
  pub max_size : ℕ
  pub data_size : ℕ
  pub metadata_size : ℕ
  pub dbuf_size : ℕ
  pub dnode_size : ℕ
  pub hdr_size : ℕ
  pub deleted : ℕ
  pub l2_size : ℕ
  pub l2_asize : ℕ
  pub l2_ndev : ℕ
  pub l2_hits : ℕ
  pub l2_misses : ℕ
  pub memory_all_bytes : ℕ
  pub memory_free_bytes : ℕ
  pub memory_available_bytes : ℕ
  pub timestamp : ℕ

-- What the JSON answer shows of the counters, under its field names.
abbrev pub json_fields : ArcMetrics → List (Bytes × ℕ)
json_fields m =
    (codes "hits", m.hits)
    ∷ (codes "iohits", m.iohits)
    ∷ (codes "misses", m.misses)
    ∷ (codes "mru_hits", m.mru_hits)
    ∷ (codes "mru_ghost_hits", m.mru_ghost_hits)
    ∷ (codes "mfu_hits", m.mfu_hits)
    ∷ (codes "mfu_ghost_hits", m.mfu_ghost_hits)
    ∷ (codes "demand_data_hits", m.demand_data_hits)
    ∷ (codes "demand_data_misses", m.demand_data_misses)
    ∷ (codes "demand_metadata_hits", m.demand_metadata_hits)
    ∷ (codes "demand_metadata_misses", m.demand_metadata_misses)
    ∷ (codes "prefetch_data_hits", m.prefetch_data_hits)
    ∷ (codes "prefetch_data_misses", m.prefetch_data_misses)
    ∷ (codes "prefetch_metadata_hits", m.prefetch_meta_hits)
    ∷ (codes "prefetch_metadata_misses", m.prefetch_meta_misses)
    ∷ (codes "size", m.size)
    ∷ (codes "c", m.target_size)
    ∷ (codes "c_min", m.min_size)
    ∷ (codes "c_max", m.max_size)
    ∷ (codes "data_size", m.data_size)
    ∷ (codes "metadata_size", m.metadata_size)
    ∷ (codes "dbuf_size", m.dbuf_size)
    ∷ (codes "arc_dnode_size", m.dnode_size)
    ∷ (codes "hdr_size", m.hdr_size)
    ∷ (codes "deleted", m.deleted)
    ∷ (codes "l2_size", m.l2_size)
    ∷ (codes "l2_asize", m.l2_asize)
    ∷ (codes "l2_ndev", m.l2_ndev)
    ∷ (codes "l2_hits", m.l2_hits)
    ∷ (codes "l2_misses", m.l2_misses)
    ∷ (codes "memory_all_bytes", m.memory_all_bytes)
    ∷ (codes "memory_free_bytes", m.memory_free_bytes)
    ∷ (codes "memory_available_bytes", m.memory_available_bytes)
    ∷ []

-- The map `kv`, its newest entry first.
abbrev pub Kv : Type 0
Kv = List (Bytes × ℕ)

-- `kv[key]`, which is 0 for a key that is not there
unfoldable pub value_of : Bytes → Kv → ℕ
value_of key [] = 0
value_of key ((k, v) ∷ kv) = if equal k key then v else value_of key kv

abbrev keyed : Bytes → Option ℕ → Option (Bytes × ℕ)
keyed key none = none
keyed key (some v) = some (key, v)

-- One line of the loop: its key and value, or `none` where the loop goes on to the next line.
row_of : List Bytes → Option (Bytes × ℕ)
row_of (name ∷ kind ∷ data_text ∷ _) = elim (atoi kind) [
  | none ↦ none
  | some _ ↦ keyed name (parse_uint data_text)
]
row_of _ = none

unfoldable pub parse_row : Bytes → Option (Bytes × ℕ)
unfolding row_of
parse_row line = row_of (fields line)

abbrev add_row : Option (Bytes × ℕ) → Kv → Kv
add_row none kv = kv
add_row (some r) kv = r ∷ kv

-- the loop over `lines[2:]`
unfoldable pub parse_rows : List Bytes → Kv → Kv
parse_rows [] kv = kv
parse_rows (line ∷ lines) kv = parse_rows lines (add_row (parse_row line) kv)

-- the literal that `parseARCStats` ends with; the time is set by `fetchARC`
pub metrics_of : Kv → ArcMetrics
metrics_of kv = record {
  hits = value_of (codes "hits") kv;
  iohits = value_of (codes "iohits") kv;
  misses = value_of (codes "misses") kv;
  mru_hits = value_of (codes "mru_hits") kv;
  mru_ghost_hits = value_of (codes "mru_ghost_hits") kv;
  mfu_hits = value_of (codes "mfu_hits") kv;
  mfu_ghost_hits = value_of (codes "mfu_ghost_hits") kv;
  demand_data_hits = value_of (codes "demand_data_hits") kv;
  demand_data_misses = value_of (codes "demand_data_misses") kv;
  demand_metadata_hits = value_of (codes "demand_metadata_hits") kv;
  demand_metadata_misses = value_of (codes "demand_metadata_misses") kv;
  prefetch_data_hits = value_of (codes "prefetch_data_hits") kv;
  prefetch_data_misses = value_of (codes "prefetch_data_misses") kv;
  prefetch_meta_hits = value_of (codes "prefetch_metadata_hits") kv;
  prefetch_meta_misses = value_of (codes "prefetch_metadata_misses") kv;
  size = value_of (codes "size") kv;
  target_size = value_of (codes "c") kv;
  min_size = value_of (codes "c_min") kv;
  max_size = value_of (codes "c_max") kv;
  data_size = value_of (codes "data_size") kv;
  metadata_size = value_of (codes "metadata_size") kv;
  dbuf_size = value_of (codes "dbuf_size") kv;
  dnode_size = value_of (codes "arc_dnode_size") kv;
  hdr_size = value_of (codes "hdr_size") kv;
  deleted = value_of (codes "deleted") kv;
  l2_size = value_of (codes "l2_size") kv;
  l2_asize = value_of (codes "l2_asize") kv;
  l2_ndev = value_of (codes "l2_ndev") kv;
  l2_hits = value_of (codes "l2_hits") kv;
  l2_misses = value_of (codes "l2_misses") kv;
  memory_all_bytes = value_of (codes "memory_all_bytes") kv;
  memory_free_bytes = value_of (codes "memory_free_bytes") kv;
  memory_available_bytes = value_of (codes "memory_available_bytes") kv;
  timestamp = 0;
}

pub data ArcError : Type 0 where
  context_done : ArcError
  read_failed : ArcError
  truncated : (lines : ℕ) → ArcError

pub data Result {ℓ} (A : Type ℓ) : Type ℓ where
  ok : A → Result A
  err : ArcError → Result A

pub parse_lines : List Bytes → Result ArcMetrics
unfolding metrics_of parse_rows
parse_lines (header ∷ columns ∷ rows) = ok (metrics_of (parse_rows rows []))
parse_lines lines = err (truncated (length lines))

-- `parseARCStats`
unfoldable pub parse_arc_stats : Bytes → Result ArcMetrics
unfolding parse_lines
parse_arc_stats raw = parse_lines (split b'\n' (trim_space raw))

stamped : ℕ → Result ArcMetrics → Result ArcMetrics
stamped now (ok m) = ok (record m { timestamp = now })
stamped now (err e) = err e

read_arc : Option Bytes → ℕ → Result ArcMetrics
unfolding stamped
read_arc none now = err read_failed
read_arc (some raw) now = stamped now (parse_arc_stats raw)

-- `fetchARC`, at whether the context is done, what `os.ReadFile` gives, and the clock
unfoldable pub fetch_arc : Bool → Option Bytes → ℕ → Result ArcMetrics
unfolding read_arc
fetch_arc true file now = err context_done
fetch_arc false file now = read_arc file now
