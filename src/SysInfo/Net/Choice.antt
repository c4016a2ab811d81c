-- ===== src/SysInfo/Net/Choice.antt =====
-- Which route and which address the two scans choose.
use zdash.Prelude.{
  ◌≡◌, ◌≢◌, refl, ap, sym, true, false, List, [], ◌∷◌, ◌++◌, none, some, ◌⊎◌, inl, inr, arith,
  Bytes, equal, All, Option-cases, Bool-cases,
}
use zdash.Text.{split, fields}
use zdash.Text.Fields.{fields-All}
use zdash.SysInfo.Net.{
  default_row, route_row, first_route, behind_header, parse_default_route, is_unusable, TrieLine,
  address, local_mark, other, trie_lines, scan_trie, parse_ipv4_for_iface,
}

-- The first default row and its interface, or that there is none.
pub data FirstRoute (rows : List Bytes) (iface : Bytes) : Type 0 where
  found :
      (pre : List Bytes) (row : Bytes) (post : List Bytes)
      → rows ≡ pre ++ row ∷ post
      → All (λ line. route_row line ≡ none) pre
      → route_row row ≡ some iface
      → iface ≢ []
      → FirstRoute rows iface
  no_route : All (λ line. route_row line ≡ none) rows → iface ≡ [] → FirstRoute rows iface

FirstRoute-cons :
    (row : Bytes) {rows : List Bytes} {iface : Bytes}
    → route_row row ≡ none
    → FirstRoute rows iface
    → FirstRoute (row ∷ rows) iface
FirstRoute-cons row n (found pre r post e all h f) =
    found (row ∷ pre) r post (ap (◌∷◌ row) e) (n, all) h f
FirstRoute-cons row n (no_route all e) = no_route (n, all) e

default_row-ne-nil :
    (words : List Bytes) {iface : Bytes}
    → All (λ w. w ≢ []) words
    → default_row words ≡ some iface
    → iface ≢ []
unfolding default_row
default_row-ne-nil [] h e = absurd (cc)
default_row-ne-nil (a ∷ []) h e = absurd (cc)
default_row-ne-nil (a ∷ b ∷ []) h e = absurd (cc)
default_row-ne-nil (a ∷ b ∷ c ∷ []) h e = absurd (cc)
default_row-ne-nil (a ∷ b ∷ c ∷ d ∷ words) h e = ground (arith, h.0)

-- The interface of a row is a field, and so not empty.
row-ne-nil : (row : Bytes) {iface : Bytes} → route_row row ≡ some iface → iface ≢ []
unfolding route_row
row-ne-nil row e = default_row-ne-nil (fields row) (fields-All row) e

first_route-FirstRoute : (rows : List Bytes) → FirstRoute rows (first_route rows)
unfolding first_route
first_route-FirstRoute [] = no_route tt refl
first_route-FirstRoute (row ∷ rows) = elim (Option-cases (route_row row)) [
  | inl e ↦ rw (e, first_route) (FirstRoute-cons row e (first_route-FirstRoute rows))
  | inr (iface, e) ↦ rw (e, first_route) (found [] row rows refl tt e (row-ne-nil row e))
]

-- The interface is that of the first row behind the header that is a default route with at least
-- four columns, and then is not empty; and it is empty where no row is such.
pub parse_default_route_first :
    (raw : Bytes) → FirstRoute (behind_header (split b'\n' raw)) (parse_default_route raw)
unfolding parse_default_route
parse_default_route_first raw = first_route-FirstRoute (behind_header (split b'\n' raw))

-- A local address: a line of the address, then lines of other kinds, then the mark.
pub record Owned (lines : List TrieLine) (ip : Bytes) : Type 0 where
  pub pre : List TrieLine
  pub mid : List TrieLine
  pub post : List TrieLine
  pub splits : lines ≡ pre ++ (address ip ∷ (mid ++ local_mark ∷ post))
  pub between : All (λ line. line ≡ other) mid

Owned-cons :
    (line : TrieLine) {lines : List TrieLine} {ip : Bytes}
    → Owned lines ip
    → Owned (line ∷ lines) ip
Owned-cons line o = record {
  pre = line ∷ o.pre;
  mid = o.mid;
  post = o.post;
  splits = ap (◌∷◌ line) o.splits;
  between = o.between;
}

-- What the scan says, when `last` is the address in hand.
abbrev Chosen : List TrieLine → Bytes → Bytes → Type 0
Chosen lines last ip =
    (is_unusable ip ≡ false)
    × (Owned lines ip
        ⊎ ((mid post : List TrieLine) × (lines ≡ mid ++ local_mark ∷ post)
            × All (λ line. line ≡ other) mid
            × (last ≡ ip)))

Chosen-address :
    (ip : Bytes) (lines : List TrieLine) (last chosen : Bytes)
    → Chosen lines ip chosen
    → Chosen (address ip ∷ lines) last chosen
Chosen-address ip lines last chosen (u, inl o) = (u, inl (Owned-cons (address ip) o))
Chosen-address ip lines last chosen (u, inr (mid, post, e, all, same)) =
    (u, inl (record { pre = []; mid = mid; post = post; splits = cc (e, same); between = all }))

Chosen-other :
    (lines : List TrieLine) (last chosen : Bytes)
    → Chosen lines last chosen
    → Chosen (other ∷ lines) last chosen
Chosen-other lines last chosen (u, inl o) = (u, inl (Owned-cons other o))
Chosen-other lines last chosen (u, inr (mid, post, e, all, same)) =
    (u, inr (other ∷ mid, post, ap (◌∷◌ other) e, (refl, all), same))

-- A passed-over mark keeps an unusable address in hand, which is never chosen.
Chosen-mark :
    (lines : List TrieLine) (last chosen : Bytes)
    → is_unusable last ≡ true
    → Chosen lines last chosen
    → Chosen (local_mark ∷ lines) last chosen
Chosen-mark lines last chosen bad (u, inl o) = (u, inl (Owned-cons local_mark o))
Chosen-mark lines last chosen bad (u, inr (mid, post, e, all, same)) =
    absurd (ground (arith, ap is_unusable same))

scan_trie-Chosen :
    (lines : List TrieLine) (last : Bytes)
    → scan_trie lines last ≢ []
    → Chosen lines last (scan_trie lines last)
unfolding scan_trie
scan_trie-Chosen [] last n = absurd (n refl)
scan_trie-Chosen (address ip ∷ lines) last n =
    Chosen-address ip lines last _ (scan_trie-Chosen lines ip n)
scan_trie-Chosen (other ∷ lines) last n = Chosen-other lines last _ (scan_trie-Chosen lines last n)
scan_trie-Chosen (local_mark ∷ lines) last n = elim (Bool-cases (is_unusable last)) [
  | inl bad ↦
      rw (bad, scan_trie)
        (Chosen-mark lines last _ bad (scan_trie-Chosen lines last (rw (bad, scan_trie) at n)))
  | inr good ↦ rw (good, scan_trie) (good, inr ([], lines, refl, tt, refl))
]

-- An address that is returned is usable (not empty, not 0.0.0.0 and not of the loopback net), and
-- stands in the file as a local address of the host.
pub parse_ipv4_for_iface-Owned :
    (raw iface : Bytes)
    → parse_ipv4_for_iface raw iface ≢ []
    → (is_unusable (parse_ipv4_for_iface raw iface) ≡ false)
      × Owned (trie_lines (split b'\n' raw)) (parse_ipv4_for_iface raw iface)
unfolding parse_ipv4_for_iface
parse_ipv4_for_iface-Owned raw iface n =
    settle (scan_trie-Chosen (trie_lines (split b'\n' raw)) [] n)
  where
    lines : List TrieLine
    lines = trie_lines (split b'\n' raw)

    settle :
        Chosen lines [] (scan_trie lines [])
        → (is_unusable (scan_trie lines []) ≡ false) × Owned lines (scan_trie lines [])
    settle (u, inl o) = (u, o)
    settle (u, inr (mid, post, e, all, same)) = absurd (n (sym same))

unusable_empty : is_unusable [] ≡ true
unfolding is_unusable equal
unusable_empty = refl

scan_mid :
    (mid post : List TrieLine) (ip : Bytes)
    → All (λ line. line ≡ other) mid
    → is_unusable ip ≡ false
    → scan_trie (mid ++ local_mark ∷ post) ip ≡ ip
unfolding scan_trie
scan_mid [] post ip all good = rw (good, scan_trie) refl
scan_mid (line ∷ mid) post ip (is_other, all) good = rw is_other (scan_mid mid post ip all good)

scan_pre :
    (pre rest : List TrieLine) (last : Bytes)
    → ((l : Bytes) → scan_trie rest l ≢ [])
    → scan_trie (pre ++ rest) last ≢ []
unfolding scan_trie
scan_pre [] rest last h = h last
scan_pre (address ip ∷ pre) rest last h = scan_pre pre rest ip h
scan_pre (other ∷ pre) rest last h = scan_pre pre rest last h
scan_pre (local_mark ∷ pre) rest last h = elim (Bool-cases (is_unusable last)) [
  | inl bad ↦ rw (bad, scan_trie) (scan_pre pre rest last h)
  | inr good ↦ rw (good, scan_trie) (λ e. ground (arith, ap is_unusable e, unusable_empty))
]

-- If the host has a usable local address in the file, some address is returned.
parse_ipv4_for_iface_finds :
    (raw iface ip : Bytes)
    → Owned (trie_lines (split b'\n' raw)) ip
    → is_unusable ip ≡ false
    → parse_ipv4_for_iface raw iface ≢ []
unfolding parse_ipv4_for_iface scan_trie
parse_ipv4_for_iface_finds raw iface ip o good = rw o.splits (
    scan_pre o.pre (address ip ∷ (o.mid ++ local_mark ∷ o.post)) [] λ l e.
      ground (arith, scan_mid o.mid o.post ip o.between good, ap is_unusable e, unusable_empty))
