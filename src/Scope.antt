-- ===== src/Scope.antt =====
-- The confirmed scope of active scans (engine/scope.py).
pub mod Networks
pub mod Validate
pub mod Covering
pub mod Disjoint
pub mod Permitted
pub mod Confirmed
pub mod Canonical
pub mod Reading
pub mod Accepting
pub mod Stops
pub mod Refusals
pub mod Proposal
pub mod Hints
pub mod Offers
pub mod Proposing
pub mod Example
pub mod Reduced
pub mod Expanding
mod Tests
