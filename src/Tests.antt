-- ===== src/Tests.antt =====
-- Runs of the programs on small inputs, and the theorems at concrete arguments.
pub mod NearMap
pub mod Faasmspeed
pub mod Statmon
pub mod Monitor
pub mod Safety
pub mod Disks
pub mod Phases
pub mod Exchange
pub mod Errors
pub mod Meminfo
pub mod Requests
pub mod Output
pub mod Runs
pub mod Range
pub mod OffloadSim
