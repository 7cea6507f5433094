-- ===== src/Witnesses.antt =====
-- Concrete runs of src/bridge_db: a registry, a database and one handoff's life.
mod Data
mod Lives
mod Handlers
mod Gates
mod Ledgers
mod Contexts
mod Pages
mod Files
mod Delegations
