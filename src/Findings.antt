-- ===== src/Findings.antt =====
-- The findings of an audit (findings/): drafts that rules emit, their deduplication, and the store.
pub mod Models
pub mod Engine
pub mod Merging
pub mod Bounds
pub mod Store
pub mod Statuses
pub mod Upserts
mod Tests
