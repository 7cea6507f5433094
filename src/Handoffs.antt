-- ===== src/Handoffs.antt =====
-- The handoff queue: src/bridge_db/tools/handoffs.py and the operator ceremonies of
-- src/bridge_db/__main__.py. A child for the tables, for each operation, and for what is proved.
pub mod Tables
pub mod Store
pub mod Create
pub mod Claim
pub mod Listing
pub mod Complete
pub mod Transaction
pub mod Ceremonies
pub mod Recover
pub mod Quarantine
pub mod Protocol
pub mod Invariant
pub mod Refinement
pub mod Lifecycle
pub mod Trust
pub mod Payload
pub mod Quotas
pub mod Outcomes
