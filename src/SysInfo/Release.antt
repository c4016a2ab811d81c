-- ===== src/SysInfo/Release.antt =====
-- `parseOSRelease` and `fqdn`.
pub mod Keys
use zdash.Prelude.{
  ℕ, Bool, true, false, ◌&&◌, ◌||◌, List, [], ◌∷◌, ◌++◌, Option, none, some, ◌==◌, if◌then◌else◌,
  Bytes, codes, equal,
}
use zdash.Text.{trim_space, trim_func, trim_suffix, split, cut, has_prefix, has_suffix}

-- The results of `parseOSRelease`.
pub record OsRelease : Type 0 where
  pub id : Bytes
  pub pretty : Bytes
  pub version : Bytes
  pub codename : Bytes
  pub variant : Bytes
  pub build_id : Bytes

-- the characters of the cutset `"'`
abbrev is_quote : ℕ → Bool
is_quote c = c == b'"' || c == b'\''

-- The key and the unquoted value of a line, if the loop gets to its `switch`.
entry_of : Option (Bytes × Bytes) → Option (Bytes × Bytes)
entry_of none = none
entry_of (some (key, val)) = some (key, trim_func is_quote val)

unfoldable pub parse_line : Bytes → Option (Bytes × Bytes)
unfolding entry_of
parse_line line =
    let trimmed = trim_space line in
    if equal trimmed [] || has_prefix trimmed (codes "#")
    then none
    else entry_of (cut trimmed (codes "="))

-- the `switch`
unfoldable pub set_key : Bytes → Bytes → OsRelease → OsRelease
set_key key val r =
    if equal key (codes "ID")
    then record r { id = val }
    else if equal key (codes "PRETTY_NAME")
    then record r { pretty = val }
    else if equal key (codes "VERSION")
    then record r { version = val }
    else if equal key (codes "VERSION_CODENAME")
    then record r { codename = val }
    else if equal key (codes "VARIANT")
    then record r { variant = val }
    else if equal key (codes "VARIANT_ID")
    then (if equal r.variant [] then record r { variant = val } else r)
    else if equal key (codes "BUILD_ID")
    then record r { build_id = val }
    else r

abbrev set_entry : Option (Bytes × Bytes) → OsRelease → OsRelease
set_entry none r = r
set_entry (some (key, val)) r = set_key key val r

unfoldable pub set_lines : List Bytes → OsRelease → OsRelease
set_lines [] r = r
set_lines (line ∷ lines) r = set_lines lines (set_entry (parse_line line) r)

abbrev pub no_release : OsRelease
no_release = record {
  id = [];
  pretty = [];
  version = [];
  codename = [];
  variant = [];
  build_id = [];
}

-- `parseOSRelease`
unfoldable pub parse_os_release : Bytes → OsRelease
unfolding set_lines
parse_os_release raw = set_lines (split b'\n' raw) no_release

join_domain : Bytes → Bytes → Bytes
join_domain host domain =
    if equal domain [] || equal domain (codes "(none)") || equal domain (codes "none")
    then host
    else if equal host [] || equal host domain || has_suffix host (codes "." ++ domain)
    then host
    else host ++ (codes "." ++ domain)

-- `fqdn`
unfoldable pub fqdn : Bytes → Bytes → Bytes
unfolding join_domain
fqdn host domain =
    join_domain (trim_suffix (trim_space host) (codes "."))
      (trim_suffix (trim_space domain) (codes "."))
