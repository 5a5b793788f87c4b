-- ===== src/Apply.antt =====
-- The application of one candidate, under src/hunt/apply/.
pub mod Guard
