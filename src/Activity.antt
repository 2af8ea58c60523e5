-- ===== src/Activity.antt =====
-- backend/src/api: the activity rows of the depositors and of the agent.
pub mod User
pub mod Agent
pub mod Log
pub mod Feed
pub mod Scope
pub mod Listing
pub mod Order
mod Tests
