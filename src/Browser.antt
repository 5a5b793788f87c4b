-- ===== src/Browser.antt =====
-- src/browser: the ceiling on concurrent browsers.
pub mod Limit
