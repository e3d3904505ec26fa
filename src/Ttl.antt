-- ===== src/Ttl.antt =====
-- ton-trace-ttl-tracker/main.go, one module to each of its types.
pub mod Heap
pub mod World
pub mod Expiry
pub mod Trace
pub mod Retry
pub mod SortedSet
pub mod Tracker
pub mod Cleanup
mod Examples
pub mod Synthetic
pub mod Addresses
