-- ===== src/SysInfo/Fetch.antt =====
-- `fetchSysInfo`: the snapshot as a function of the files, the environment and the clock.
pub mod Sound
use zdash.Prelude.{
  ℕ, Bool, true, false, not, List, [], ◌∷◌, Option, none, some, ◌==◌, if◌then◌else◌, Bytes, codes,
  equal,
}
use zdash.Prelude.Int.{ℤ, pos}
use zdash.Text.{trim_space}
use zdash.SysInfo.Paths
use zdash.SysInfo.Floats.{Floats}
use zdash.SysInfo.Memory.{MemInfo, no_memory, parse_mem_info, used_bytes}
use zdash.SysInfo.Cpu.{
  CpuInfo, no_cpu, parse_cpu_info, parse_uptime, parse_load_avg, khz_to_mhz, parse_btime,
}
use zdash.SysInfo.Release.{OsRelease, no_release, parse_os_release, fqdn}
use zdash.SysInfo.Net.{parse_default_route, parse_ipv4_for_iface}
use zdash.SysInfo.Host.{DirEntry, first_non_empty, count_processes, read_trim}
use zdash.SysInfo.Uptime.{format_uptime}

-- What the snapshot reads of the system: `none` is an error of the call.
pub record Host : Type 0 where
  pub read_file : Bytes → Option Bytes
  pub exists : Bytes → Bool  -- `os.Stat` gives no error
  pub read_dir : Bytes → Option (List DirEntry)
  pub getenv : Bytes → Bytes
  pub hostname : Option Bytes
  pub goarch : Bytes
  pub num_cpu : ℕ
  pub now_ms : ℕ

-- the value of a readable file, or a default
abbrev from_file {ℓ} : {A : Type ℓ} → Option Bytes → (Bytes → A) → A → A
from_file none f d = d
from_file (some b) f d = f b

host_name : Option Bytes → Bytes
host_name none = []
host_name (some h) = h

-- the address of the default route's interface, if there is one
read_ipv4 : Host → Bytes → Bytes
read_ipv4 host iface =
    if equal iface []
    then []
    else from_file (host.read_file Paths.net_ipv4) (λ fb. parse_ipv4_for_iface fb iface) []

module _ (floats : Floats) where
  open floats use {Float, zero_float, eq_zero}

  -- `SysInfo`
  pub record SysInfo : Type 0 where
    pub hostname : Bytes
    pub fqdn : Bytes
    pub os_release : OsRelease  -- OSID, OS, OSVersion, OSCodename, OSVariant, OSBuildID
    pub kernel : Bytes
    pub kernel_release : Bytes
    pub kernel_version : Bytes
    pub machine : Bytes
    pub host_vendor : Bytes
    pub host_product : Bytes
    pub host_version : Bytes
    pub host_family : Bytes
    pub uptime_seconds : Float
    pub uptime : Bytes
    pub boot_time : ℤ
    pub cpu : CpuInfo floats  -- CPUModel, CPUVendor, CPUCores, CPUPhysicalCores, CPUFreqMHz
    pub cpu_base_mhz : Float
    pub cpu_max_mhz : Float
    pub load : Float × Float × Float
    pub memory : MemInfo  -- the six results of `parseMemInfo`
    pub memory_used : ℕ
    pub shell : Bytes
    pub terminal : Bytes
    pub locale : Bytes
    pub processes : ℕ
    pub net_iface : Bytes
    pub net_ipv4 : Bytes
    pub zfs_available : Bool
    pub arc_available : Bool
    pub timestamp : ℕ

  -- `CPUCores` falls back to `runtime.NumCPU()`, and `CPUFreqMHz` to the cpufreq file.
  cpu_with_cores : ℕ → CpuInfo floats → CpuInfo floats
  cpu_with_cores n c = if c.logical == 0 then record c { logical = n } else c

  cpu_with_freq : Option Bytes → CpuInfo floats → CpuInfo floats
  cpu_with_freq cur c =
      if eq_zero c.freq_mhz
      then record c { freq_mhz = from_file cur (khz_to_mhz floats) c.freq_mhz }
      else c

  unfoldable pub read_cpu : Host → CpuInfo floats
  unfolding cpu_with_cores cpu_with_freq
  read_cpu host = cpu_with_freq (host.read_file Paths.freq_cur) (
      cpu_with_cores host.num_cpu
        (from_file (host.read_file Paths.cpu_info) (parse_cpu_info floats) (no_cpu floats)))

  unfoldable pub snapshot : Host → SysInfo
  unfolding host_name read_cpu read_ipv4
  snapshot host = record {
    hostname = host_name host.hostname;
    fqdn =
        from_file (host.read_file (codes "/proc/sys/kernel/domainname"))
          (fqdn (host_name host.hostname)) [];
    os_release = from_file (host.read_file Paths.os_release) parse_os_release no_release;
    kernel = from_file (host.read_file (codes "/proc/sys/kernel/ostype")) trim_space [];
    kernel_release = from_file (host.read_file (codes "/proc/sys/kernel/osrelease")) trim_space [];
    kernel_version = from_file (host.read_file (codes "/proc/sys/kernel/version")) trim_space [];
    machine = host.goarch;
    host_vendor = read_trim (host.read_file (codes "/sys/class/dmi/id/sys_vendor"));
    host_product = read_trim (host.read_file (codes "/sys/class/dmi/id/product_name"));
    host_version = read_trim (host.read_file (codes "/sys/class/dmi/id/product_version"));
    host_family = read_trim (host.read_file (codes "/sys/class/dmi/id/board_name"));
    uptime_seconds = from_file (host.read_file Paths.uptime) (parse_uptime floats) zero_float;
    uptime =
        from_file (host.read_file Paths.uptime) (λ b. format_uptime floats (parse_uptime floats b))
          [];
    boot_time = from_file (host.read_file Paths.stat) parse_btime (pos 0);
    cpu = read_cpu host;
    cpu_base_mhz = from_file (host.read_file Paths.freq_base) (khz_to_mhz floats) zero_float;
    cpu_max_mhz = from_file (host.read_file Paths.freq_max) (khz_to_mhz floats) zero_float;
    load =
        from_file (host.read_file Paths.load_avg) (parse_load_avg floats)
          (zero_float, zero_float, zero_float);
    memory = from_file (host.read_file Paths.mem_info) parse_mem_info no_memory;
    memory_used = from_file (host.read_file Paths.mem_info) (λ b. used_bytes (parse_mem_info b)) 0;
    shell = host.getenv (codes "SHELL");
    terminal = host.getenv (codes "TERM");
    locale = first_non_empty (
        host.getenv (codes "LC_ALL")
        ∷ host.getenv (codes "LC_MESSAGES")
        ∷ host.getenv (codes "LANG")
        ∷ []);
    processes = count_processes (host.read_dir Paths.proc_root);
    net_iface = from_file (host.read_file Paths.net_route) parse_default_route [];
    net_ipv4 = read_ipv4 host (from_file (host.read_file Paths.net_route) parse_default_route []);
    zfs_available = host.exists Paths.zfs_dev;
    arc_available = host.exists Paths.arcstats;
    timestamp = host.now_ms;
  }

  -- `fetchSysInfo`: an error only from a context that is done
  unfoldable pub fetch_sys_info : Bool → Host → Option SysInfo
  unfolding snapshot
  fetch_sys_info true host = none
  fetch_sys_info false host = some (snapshot host)
