-- ===== src/SysInfo/Host.antt =====
-- `firstNonEmpty`, `countProcesses` and `readTrim`.
use zdash.Prelude.{
  ℕ, ◌+◌, Bool, true, false, List, [], ◌∷◌, Option, none, some, if◌then◌else◌, Bytes, equal,
}
use zdash.Text.{trim_space}
use zdash.Text.Numbers.{atoi}

-- `firstNonEmpty`
unfoldable pub first_non_empty : List Bytes → Bytes
unfolding equal
first_non_empty [] = []
first_non_empty (v ∷ vals) = if equal v [] then first_non_empty vals else v

-- A directory entry, as `os.ReadDir` lists it.
pub record DirEntry : Type 0 where
  pub name : Bytes
  pub is_dir : Bool

unfoldable pub is_process : DirEntry → Bool
is_process e = if e.is_dir then elim (atoi e.name) [ none ↦ false | some _ ↦ true ] else false

unfoldable pub count_entries : List DirEntry → ℕ
count_entries [] = 0
count_entries (e ∷ es) = (if is_process e then 1 else 0) + count_entries es

-- `countProcesses`, at what `os.ReadDir` gives
unfoldable pub count_processes : Option (List DirEntry) → ℕ
unfolding count_entries is_process
count_processes none = 0
count_processes (some entries) = count_entries entries

-- `readTrim`, at what `os.ReadFile` gives
unfoldable pub read_trim : Option Bytes → Bytes
read_trim none = []
read_trim (some b) = trim_space b
