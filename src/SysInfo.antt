-- ===== src/SysInfo.antt =====
-- sysinfo.go: the host snapshot. The parsers stand in the children; `SysInfo.Fetch` puts them together.
pub mod Floats
pub mod Memory
pub mod Cpu
pub mod Host
pub mod Uptime
pub mod Paths
pub mod Fetch
mod Tests
pub mod Release
pub mod Net
