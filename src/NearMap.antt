-- ===== src/NearMap.antt =====
-- pin-NearMAP/analyse-results: the analysis of the memory traces that the PIN tool writes.
pub mod Access
pub mod Trace
pub mod Analysis
pub mod Folder
