-- ===== src/Examples.antt =====
-- Tests of the definitions on concrete inputs, and the theorems applied to concrete inputs.
mod Browser
mod Queue
mod Store
mod Planner
mod Dispatch
mod Canonical
mod Approval
mod Vault
mod Lanes
mod Auth
mod Google
mod Inbox
mod Discovery
mod Recovery
mod Ranking
mod Locks
mod Agent
mod Apply
mod Outreach
