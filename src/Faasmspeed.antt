-- ===== src/Faasmspeed.antt =====
-- faasmspeed: the generator of requests and the report of their latencies.
pub mod Options
pub mod Json
pub mod Requests
pub mod Schedule
pub mod Report
pub mod Output
pub mod Results
pub mod FunctionReport
pub mod Exchange
pub mod Errors
pub mod Phases
