-- ===== src/SysInfo/Net.antt =====
-- `parseDefaultRoute` and `parseIPv4ForIface`.
pub mod Choice
use zdash.Prelude.{
  ℕ, Bool, true, false, ◌||◌, List, [], ◌∷◌, Option, none, some, if◌then◌else◌, Bytes, codes, equal,
}
use zdash.Text.{trim_space, split, fields, cut, contains, has_prefix}

-- A row of /proc/net/route: its interface, if it is long enough and its destination is the default.
-- `strings.EqualFold` against a text of zeros is equality: no other rune folds to a digit.
default_row : List Bytes → Option Bytes
default_row (iface ∷ dest ∷ _ ∷ _ ∷ _) = if equal dest (codes "00000000") then some iface else none
default_row _ = none

unfoldable pub route_row : Bytes → Option Bytes
unfolding default_row
route_row line = default_row (fields line)

unfoldable pub first_route : List Bytes → Bytes
first_route [] = []
first_route (line ∷ lines) = elim (route_row line) [ none ↦ first_route lines | some iface ↦ iface ]

pub behind_header : List Bytes → List Bytes
behind_header [] = []
behind_header (header ∷ rows) = rows

-- `parseDefaultRoute`; a text of fewer than two lines has no rows.
unfoldable pub parse_default_route : Bytes → Bytes
unfolding behind_header first_route
parse_default_route raw = first_route (behind_header (split b'\n' raw))

-- the addresses that the loop passes over
unfoldable pub is_unusable : Bytes → Bool
is_unusable ip =
    equal ip []
    || equal ip (codes "127.0.0.1")
    || equal ip (codes "0.0.0.0")
    || has_prefix ip (codes "127.")

-- What a line of /proc/net/fib_trie is to the loop.
pub data TrieLine : Type 0 where
  address : Bytes → TrieLine
  local_mark other : TrieLine

trie_line_of : Option (Bytes × Bytes) → Bytes → TrieLine
trie_line_of (some (_, after)) line = address (trim_space after)
trie_line_of none line = if contains line (codes "host LOCAL") then local_mark else other

unfoldable pub trie_line : Bytes → TrieLine
unfolding trie_line_of
trie_line line = trie_line_of (cut line (codes "|--")) line

-- the loop, with `lastIP`
unfoldable pub scan_trie : List TrieLine → Bytes → Bytes
scan_trie [] last = []
scan_trie (address ip ∷ lines) last = scan_trie lines ip
scan_trie (other ∷ lines) last = scan_trie lines last
scan_trie (local_mark ∷ lines) last = elim (is_unusable last) [
  | true ↦ scan_trie lines last
  | false ↦ last
]

unfoldable pub trie_lines : List Bytes → List TrieLine
trie_lines [] = []
trie_lines (line ∷ lines) = trie_line line ∷ trie_lines lines

-- `parseIPv4ForIface`; the interface is not used.
unfoldable pub parse_ipv4_for_iface : Bytes → Bytes → Bytes
unfolding trie_lines
parse_ipv4_for_iface raw iface = scan_trie (trie_lines (split b'\n' raw)) []
