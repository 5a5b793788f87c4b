-- ===== src/Outreach.antt =====
-- src/outreach: who is approached on LinkedIn, and the rails that every send passes.
pub mod Limits
pub mod Rank
pub mod Sequence
