-- ===== src/Handoffs/Outcomes.antt =====
-- What the answers of the handoff tools and ceremonies promise.
pub mod Authority
pub mod Winning
pub mod Reviews
pub mod Promoting
pub mod Cancelling
pub mod Orphans
pub mod Recovering
pub mod Creating
pub mod Finishing
pub mod Completing
