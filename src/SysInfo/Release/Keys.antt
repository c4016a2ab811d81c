-- ===== src/SysInfo/Release/Keys.antt =====
-- Which line of os-release each field comes from, and the shape of `fqdn`.
use mathlib.Core.List.{reverse, reverse-append}
use zdash.Prelude.{
  ◌≡◌, ◌⊎◌, refl, ap, ◌∙◌, true, false, ◌&&◌, List, [], ◌∷◌, ◌++◌, Option, none, some,
  if◌then◌else◌, Bytes, codes, equal, equal_iff, arith,
}
use zdash.Text.{split, trim_space, trim_suffix, has_suffix}
use zdash.Text.Search.{cut_prefix-append}
use zdash.SysInfo.Release.{
  OsRelease, parse_line, set_key, set_entry, set_lines, no_release, parse_os_release, fqdn,
}

-- The value that an entry gives to a key.
abbrev value_for : Bytes → Option (Bytes × Bytes) → Bytes → Bytes
value_for k none d = d
value_for k (some (key, val)) d = if equal key k then val else d

-- VARIANT sets the variant; VARIANT_ID does so while it is empty.
abbrev variant_for : Option (Bytes × Bytes) → Bytes → Bytes
variant_for none d = d
variant_for (some (key, val)) d =
    if equal key (codes "VARIANT")
    then val
    else if equal key (codes "VARIANT_ID") && equal d []
    then val
    else d

-- What one line does to each field.
set_entry-fields :
    (e : Option (Bytes × Bytes)) (r : OsRelease)
    → let r' = set_entry e r in
      (r'.id ≡ value_for (codes "ID") e r.id)
      × (r'.pretty ≡ value_for (codes "PRETTY_NAME") e r.pretty)
      × (r'.version ≡ value_for (codes "VERSION") e r.version)
      × (r'.codename ≡ value_for (codes "VERSION_CODENAME") e r.codename)
      × (r'.build_id ≡ value_for (codes "BUILD_ID") e r.build_id)
      × (r'.variant ≡ variant_for e r.variant)
unfolding set_key
set_entry-fields none r = (refl, refl, refl, refl, refl, refl)
set_entry-fields (some (key, val)) r = ground (
  arith,
  equal_iff key (codes "ID"),
  equal_iff key (codes "PRETTY_NAME"),
  equal_iff key (codes "VERSION"),
  equal_iff key (codes "VERSION_CODENAME"),
  equal_iff key (codes "VARIANT"),
  equal_iff key (codes "VARIANT_ID"),
  equal_iff key (codes "BUILD_ID"),
)

-- The updates of one field, line by line.
abbrev updates : (Option (Bytes × Bytes) → Bytes → Bytes) → List Bytes → Bytes → Bytes
updates update [] d = d
updates update (line ∷ lines) d = updates update lines (update (parse_line line) d)

-- The value of the last line for a key, or `d`.
abbrev pub last_value : Bytes → List Bytes → Bytes → Bytes
last_value k = updates (value_for k)

abbrev pub last_variant : List Bytes → Bytes → Bytes
last_variant = updates variant_for

-- A field that each line updates on its own goes through the updates of all lines.
set_lines-field :
    (field : OsRelease → Bytes) (update : Option (Bytes × Bytes) → Bytes → Bytes)
    → ((e : Option (Bytes × Bytes)) (r : OsRelease) → field (set_entry e r) ≡ update e (field r))
    → (lines : List Bytes) (r : OsRelease)
    → field (set_lines lines r) ≡ updates update lines (field r)
unfolding set_lines
set_lines-field field update h [] r = refl
set_lines-field field update h (line ∷ lines) r =
    set_lines-field field update h lines (set_entry (parse_line line) r)
    ∙ ap (updates update lines) (h (parse_line line) r)

-- The ID, pretty name, version, codename and build id are each the value of the last line for their
-- key, and empty if there is none; no other key's line touches them. The variant is set by each
-- VARIANT line, and by a VARIANT_ID line only while it is empty.
pub parse_os_release_fields :
    (raw : Bytes)
    → let lines = split b'\n' raw in
      let r = parse_os_release raw in
      (r.id ≡ last_value (codes "ID") lines [])
      × (r.pretty ≡ last_value (codes "PRETTY_NAME") lines [])
      × (r.version ≡ last_value (codes "VERSION") lines [])
      × (r.codename ≡ last_value (codes "VERSION_CODENAME") lines [])
      × (r.build_id ≡ last_value (codes "BUILD_ID") lines [])
      × (r.variant ≡ last_variant lines [])
unfolding parse_os_release
parse_os_release_fields raw =
    let lines = split b'\n' raw in
    (
      set_lines-field (λ r. r.id) _ (λ e r. (set_entry-fields e r).0) lines no_release,
      set_lines-field (λ r. r.pretty) _ (λ e r. (set_entry-fields e r).1) lines no_release,
      set_lines-field (λ r. r.version) _ (λ e r. (set_entry-fields e r).2) lines no_release,
      set_lines-field (λ r. r.codename) _ (λ e r. (set_entry-fields e r).3) lines no_release,
      set_lines-field (λ r. r.build_id) _ (λ e r. (set_entry-fields e r).4) lines no_release,
      set_lines-field (λ r. r.variant) _ (λ e r. (set_entry-fields e r).5) lines no_release,
    )

has_suffix-append : (s suffix : Bytes) → has_suffix (s ++ suffix) suffix ≡ true
unfolding has_suffix
has_suffix-append s suffix =
    rw (reverse-append s suffix) (ground (arith, cut_prefix-append (reverse suffix) (reverse s)))

-- A host name behind `fqdn` is the trimmed host name, or that with the domain: with a domain other
-- than the kernel's placeholders, and a host name, the result is the domain or ends in it, after a
-- dot, and no domain is added to a name that has it already.
fqdn_cases :
    (host domain : Bytes)
    → let h = trim_suffix (trim_space host) (codes ".") in
      let d = trim_suffix (trim_space domain) (codes ".") in
      ((fqdn host domain ≡ h)
        × ((d ≡ [])
            ⊎ (d ≡ codes "(none)")
            ⊎ (d ≡ codes "none")
            ⊎ (h ≡ [])
            ⊎ (h ≡ d)
            ⊎ (has_suffix h (codes "." ++ d) ≡ true)))
      ⊎ ((fqdn host domain ≡ h ++ (codes "." ++ d))
          × (has_suffix h (codes "." ++ d) ≡ false)
          × (has_suffix (fqdn host domain) (codes "." ++ d) ≡ true))
unfolding fqdn
fqdn_cases host domain =
    let h = trim_suffix (trim_space host) (codes ".") in
    let d = trim_suffix (trim_space domain) (codes ".") in
    ground (
      arith,
      equal_iff d [],
      equal_iff d (codes "(none)"),
      equal_iff d (codes "none"),
      equal_iff h [],
      equal_iff h d,
      has_suffix-append h (codes "." ++ d),
    )
