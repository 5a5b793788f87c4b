-- ===== src/Queue.antt =====
-- src/hunt/application-queue.ts and src/hunt/application-policy.ts: the queue of approved
-- applications.
pub mod Order
pub mod Policy
pub mod Lanes
pub mod Store
pub mod Recovery
pub mod Worker
pub mod Selection
pub mod Approval
pub mod Dispatch
pub mod Flags
