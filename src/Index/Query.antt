-- ===== src/Index/Query.antt =====
-- The texts of the SQL queries that ton-index-go/index/crud.go builds from a request.
pub mod Request
pub mod Sql
pub mod Skeleton
pub mod Redact
pub mod Outcome
pub mod Literals
pub mod Limit
pub mod Parts
pub mod Blocks
pub mod Transactions
pub mod Messages
pub mod Nft
pub mod Jettons
pub mod Accounts
pub mod Traces
pub mod Actions
pub mod Build
