-- ===== src/Index.antt =====
-- The Go API server, ton-index-go/index.
pub mod Emulated
pub mod Pending
pub mod Assemble
pub mod Balances
pub mod Query
pub mod Parse
pub mod Comment
pub mod Action
mod Sample
mod Examples
mod ReadExamples
mod BalanceExamples
mod QueryExamples
mod ActionExamples
