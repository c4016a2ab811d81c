-- ===== src/SysInfo/Tests.antt =====
-- The parsers on small files, and the theorems at them.
use zdash.Prelude.{
  ℕ, ◌+◌, ◌≤◌, ◌<◌, ◌≡◌, ◌⊎◌, refl, Bool, true, false, [], Option, none, some, Bytes, codes, equal,
  ◌==◌, ltb, ◌/◌, if◌then◌else◌,
}
use zdash.Prelude.Int.{pos}
use zdash.Text.{trim_space, trim_suffix, split, fields, cut, has_prefix, has_suffix, contains}
use zdash.Text.Numbers.{parse_uint}
use zdash.Text.Print.{format_uint}
use zdash.SysInfo.Floats.{Floats}
use zdash.SysInfo.Paths
use zdash.SysInfo.Memory.{MemInfo, scan, parse_mem_info, used_bytes, no_memory}
use zdash.SysInfo.Memory.Fields.{last_of, parse_mem_info_fields, used_bytes-le-total}
use zdash.SysInfo.Release.{OsRelease, parse_os_release, fqdn}
use zdash.SysInfo.Release.Keys.{last_value, last_variant, parse_os_release_fields}
use zdash.SysInfo.Net.{
  behind_header, parse_default_route, parse_ipv4_for_iface, is_unusable, trie_lines, trie_line,
  scan_trie, address, local_mark, other,
}
use zdash.SysInfo.Net.Choice.{
  FirstRoute, Owned, parse_default_route_first, parse_ipv4_for_iface-Owned,
}
use zdash.SysInfo.Uptime.{format_seconds}
use zdash.SysInfo.Cpu.{labelled, parse_cpu_info}
use zdash.SysInfo.Cpu.Fields.{
  first_set, is_empty, is_zero, cores_of, processors, parse_cpu_info_fields,
}
use zdash.SysInfo.Fetch.{Host, SysInfo, fetch_sys_info}
use zdash.SysInfo.Fetch.Sound.{IsSound, fetch_sys_info-IsSound}

abbrev mem_file : Bytes
mem_file = codes "MemTotal:  16 kB\nMemFree: 4 kB\nCached: 2 kB\nSwapCached: 9 kB\n"

mem_total : (parse_mem_info mem_file).total ≡ 16384
unfolding parse_mem_info zdash.SysInfo.Memory.read_line scan split fields has_prefix parse_uint
mem_total = refl

used_bytes-le-total_example :
    (used_bytes (parse_mem_info mem_file) ≤ (parse_mem_info mem_file).total)
    × (((parse_mem_info mem_file).available ≡ 0)
        ⊎ ((parse_mem_info mem_file).total < (parse_mem_info mem_file).available)
        ⊎ (used_bytes (parse_mem_info mem_file) + (parse_mem_info mem_file).available
            ≡ (parse_mem_info mem_file).total))
used_bytes-le-total_example = used_bytes-le-total (parse_mem_info mem_file)

parse_mem_info_fields_example :
    let lines = split b'\n' mem_file in
    let value = λ (key : Bytes). last_of (λ line. scan line key) lines 0 in
    let m = parse_mem_info mem_file in
    (m.total ≡ value (codes "MemTotal:"))
    × (m.free ≡ value (codes "MemFree:"))
    × (m.available ≡ value (codes "MemAvailable:"))
    × (m.cached ≡ value (codes "Cached:"))
    × (m.swap_total ≡ value (codes "SwapTotal:"))
    × (m.swap_free ≡ value (codes "SwapFree:"))
parse_mem_info_fields_example = parse_mem_info_fields mem_file

uptime_text : format_seconds 183845 ≡ codes "2d 3h 4m 5s"
unfolding format_seconds format_uint
uptime_text = refl

abbrev release_file : Bytes
release_file = codes "ID=nixos\nVARIANT_ID=server\nPRETTY_NAME=\"NixOS 25\"\n"

release_variant : (parse_os_release release_file).variant ≡ codes "server"
unfolding parse_os_release zdash.SysInfo.Release.parse_line zdash.SysInfo.Release.set_key split
    trim_space cut has_prefix equal
release_variant = refl

parse_os_release_fields_example :
    let lines = split b'\n' release_file in
    let r = parse_os_release release_file in
    (r.id ≡ last_value (codes "ID") lines [])
    × (r.pretty ≡ last_value (codes "PRETTY_NAME") lines [])
    × (r.version ≡ last_value (codes "VERSION") lines [])
    × (r.codename ≡ last_value (codes "VERSION_CODENAME") lines [])
    × (r.build_id ≡ last_value (codes "BUILD_ID") lines [])
    × (r.variant ≡ last_variant lines [])
parse_os_release_fields_example = parse_os_release_fields release_file

joined_name : fqdn (codes "host\n") (codes "example.com.\n") ≡ codes "host.example.com"
unfolding fqdn trim_space trim_suffix has_suffix equal
joined_name = refl

abbrev route_file : Bytes
route_file = codes "Iface\tDestination\tGateway\nlo 0000007F 0 0\neth0 00000000 0102A8C0 3\n"

default_route : parse_default_route route_file ≡ codes "eth0"
unfolding parse_default_route zdash.SysInfo.Net.route_row split fields equal
default_route = refl

parse_default_route_first_example :
    FirstRoute (behind_header (split b'\n' route_file)) (parse_default_route route_file)
parse_default_route_first_example = parse_default_route_first route_file

abbrev trie_file : Bytes
trie_file = codes " |-- 127.0.0.1\n /32 host LOCAL\n |-- 10.0.0.9\n /32 host LOCAL\n"

own_address : parse_ipv4_for_iface trie_file (codes "eth0") ≡ codes "10.0.0.9"
unfolding parse_ipv4_for_iface scan_trie trie_line is_unusable split cut contains trim_space equal
    has_prefix
own_address = refl

parse_ipv4_for_iface-Owned_example :
    (is_unusable (parse_ipv4_for_iface trie_file (codes "eth0")) ≡ false)
    × Owned (trie_lines (split b'\n' trie_file)) (parse_ipv4_for_iface trie_file (codes "eth0"))
parse_ipv4_for_iface-Owned_example =
    parse_ipv4_for_iface-Owned trie_file (codes "eth0") (rw own_address (cc))

own_address_usable : is_unusable (codes "10.0.0.9") ≡ false
unfolding is_unusable equal has_prefix
own_address_usable = refl

whole : Option ℕ → ℕ × Bool
whole none = (0, false)
whole (some n) = (n, true)

-- floats that are whole numbers
abbrev whole_floats : Floats
whole_floats = record {
  Float = ℕ;
  zero_float = 0;
  parse_float = λ s. whole (parse_uint s);
  eq_zero = λ f. f == 0;
  lt_one = λ f. ltb f 1;
  to_uint64 = λ f. f;
  div_1000 = λ f. f / 1000;
}

abbrev small_files : Bytes → Option Bytes
small_files path =
    if equal path Paths.mem_info
    then some mem_file
    else if equal path Paths.net_route
    then some route_file
    else if equal path Paths.net_ipv4
    then some trie_file
    else none

abbrev small_host : Host
small_host = record {
  read_file = small_files;
  exists = λ path. false;
  read_dir = λ path. none;
  getenv = λ key. [];
  hostname = some (codes "host");
  goarch = codes "amd64";
  num_cpu = 4;
  now_ms = 1000;
}

fetch_sys_info-IsSound_example :
    ((false ≡ true) × (fetch_sys_info whole_floats false small_host ≡ none))
    ⊎ ((false ≡ false)
        × ((s : SysInfo whole_floats) × (fetch_sys_info whole_floats false small_host ≡ some s)
            × IsSound whole_floats s))
fetch_sys_info-IsSound_example = fetch_sys_info-IsSound whole_floats false small_host

abbrev cpu_file : Bytes
cpu_file =
    codes
      "processor : 0\nmodel name : Zen\ncpu cores : 2\nprocessor : 1\nmodel name : Other\ncpu cores : 4\n"

parse_cpu_info_fields_example :
    let lines = split b'\n' cpu_file in
    let c = parse_cpu_info whole_floats cpu_file in
    (c.model ≡ first_set is_empty (λ line. labelled line (codes "model name")) [] lines)
    × (c.vendor ≡ first_set is_empty (λ line. labelled line (codes "vendor_id")) [] lines)
    × (c.physical ≡ first_set is_zero cores_of (pos 0) lines)
    × (c.logical ≡ processors lines)
parse_cpu_info_fields_example = parse_cpu_info_fields whole_floats cpu_file
