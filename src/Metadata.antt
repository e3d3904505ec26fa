-- ===== src/Metadata.antt =====
-- The fetcher of metadata, ton-metadata-fetcher.
pub mod Content
pub mod Ipfs
pub mod Fetch
pub mod Overrides
pub mod Images
pub mod Tables
pub mod Tasks
mod Examples
