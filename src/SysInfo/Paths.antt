-- ===== src/SysInfo/Paths.antt =====
-- The path constants of sysinfo.go, and `arcstatsPath` of arc.go.
use zdash.Prelude.{Bytes, codes}

abbrev pub os_release : Bytes
os_release = codes "/etc/os-release"

abbrev pub uptime : Bytes
uptime = codes "/proc/uptime"

abbrev pub mem_info : Bytes
mem_info = codes "/proc/meminfo"

abbrev pub cpu_info : Bytes
cpu_info = codes "/proc/cpuinfo"

abbrev pub load_avg : Bytes
load_avg = codes "/proc/loadavg"

abbrev pub stat : Bytes
stat = codes "/proc/stat"

abbrev pub net_route : Bytes
net_route = codes "/proc/net/route"

abbrev pub net_ipv4 : Bytes
net_ipv4 = codes "/proc/net/fib_trie"

abbrev pub proc_root : Bytes
proc_root = codes "/proc"

abbrev pub freq_base : Bytes
freq_base = codes "/sys/devices/system/cpu/cpu0/cpufreq/scaling_min_freq"

abbrev pub freq_max : Bytes
freq_max = codes "/sys/devices/system/cpu/cpu0/cpufreq/scaling_max_freq"

abbrev pub freq_cur : Bytes
freq_cur = codes "/sys/devices/system/cpu/cpu0/cpufreq/scaling_cur_freq"

abbrev pub zfs_dev : Bytes
zfs_dev = codes "/dev/zfs"

abbrev pub arcstats : Bytes
arcstats = codes "/proc/spl/kstat/zfs/arcstats"
