-- ===== src/Delegation.antt =====
-- src/bridge_db/owner_delegation.py: an operator delegates one exact resource to another caller,
-- who consumes the grant once.
pub mod Resources
pub mod Grants
pub mod Atomic
pub mod Use
pub mod Manifest
