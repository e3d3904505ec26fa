-- ===== src/Index/Emulated.antt =====
-- Traces that are not in the database yet, ton-index-go/index/emulated.
pub mod Actions
pub mod ActionRows
pub mod Transactions
pub mod Convert
pub mod Messages
pub mod Models
pub mod Repository
pub mod Rows
