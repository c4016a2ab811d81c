-- ===== src/SysInfo/Fetch/Sound.antt =====
-- What every snapshot satisfies, whatever the host's files say.
use zdash.Prelude.{
  ◌≤◌, ◌≡◌, ◌≢◌, ◌⊎◌, inl, inr, refl, Bool, true, false, [], Option, none, some, Bytes, equal,
  equal_iff, arith, Bool-cases,
}
use zdash.SysInfo.Floats.{Floats}
use zdash.SysInfo.Memory.{no_memory, parse_mem_info, used_bytes}
use zdash.SysInfo.Memory.Fields.{used_bytes-le-total}
use zdash.SysInfo.Net.{is_unusable, parse_ipv4_for_iface}
use zdash.SysInfo.Net.Choice.{parse_ipv4_for_iface-Owned}
use zdash.SysInfo.Paths
use zdash.SysInfo.Fetch.{Host, SysInfo, from_file, read_ipv4, snapshot, fetch_sys_info}

-- What holds of a snapshot: the used memory is within the total, and the address shown is none, or a
-- usable one beside the interface of a default route.
pub record IsSound (floats : Floats) (s : SysInfo floats) : Type 0 where
  pub used_in_total : s.memory_used ≤ s.memory.total
  pub ip_usable : (s.net_ipv4 ≡ []) ⊎ ((s.net_iface ≢ []) × (is_unusable s.net_ipv4 ≡ false))

used_from_file :
    (file : Option Bytes)
    → from_file file (λ b. used_bytes (parse_mem_info b)) 0
      ≤ (from_file file parse_mem_info no_memory).total
used_from_file none = omega arith
used_from_file (some b) = (used_bytes-le-total (parse_mem_info b)).0

ip_from_file :
    (file : Option Bytes) (iface : Bytes)
    → (from_file file (λ fb. parse_ipv4_for_iface fb iface) [] ≡ [])
      ⊎ (is_unusable (from_file file (λ fb. parse_ipv4_for_iface fb iface) []) ≡ false)
ip_from_file none iface = inl refl
ip_from_file (some fb) iface = elim (Bool-cases (equal (parse_ipv4_for_iface fb iface) [])) [
  | inl blank ↦ inl ((equal_iff _ []).0 blank)
  | inr shown ↦
      inr
        (parse_ipv4_for_iface-Owned fb iface
          λ e. ground (arith, equal_iff (parse_ipv4_for_iface fb iface) [])).0
]

read_ipv4_usable :
    (host : Host) (iface : Bytes)
    → (read_ipv4 host iface ≡ []) ⊎ ((iface ≢ []) × (is_unusable (read_ipv4 host iface) ≡ false))
unfolding read_ipv4
read_ipv4_usable host iface =
    ground (arith, equal_iff iface [], ip_from_file (host.read_file Paths.net_ipv4) iface)

-- `fetchSysInfo` fails only when its context is done; on every host, with any files missing or
-- garbled, it gives a sound snapshot otherwise.
pub fetch_sys_info-IsSound :
    (floats : Floats) (done : Bool) (host : Host)
    → ((done ≡ true) × (fetch_sys_info floats done host ≡ none))
      ⊎ ((done ≡ false)
          × ((s : SysInfo floats) × (fetch_sys_info floats done host ≡ some s) × IsSound floats s))
unfolding fetch_sys_info
fetch_sys_info-IsSound floats true host = inl (refl, refl)
fetch_sys_info-IsSound floats false host = inr (
  refl,
  (
    snapshot floats host,
    refl,
    record {
      used_in_total = used_from_file (host.read_file Paths.mem_info);
      ip_usable = read_ipv4_usable host _;
    },
  ),
)
