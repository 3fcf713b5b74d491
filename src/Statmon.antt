-- ===== src/Statmon.antt =====
-- statmon: the resource monitor.
pub mod Value
pub mod Which
pub mod Stat
pub mod Init
pub mod Run
pub mod Host
pub mod Fields
pub mod Cpu
pub mod Io
pub mod Event
pub mod Meminfo
pub mod Stats
pub mod Monitor
pub mod Packet
pub mod Server
pub mod Table
pub mod Invariant
pub mod Range
pub mod Safety
