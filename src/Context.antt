-- ===== src/Context.antt =====
-- The context sections: src/bridge_db/tools/context.py, the promotion ceremony of
-- src/bridge_db/__main__.py and the tables of src/bridge_db/db.py that they work on.
pub mod Sections
pub mod Upsert
pub mod Update
pub mod Markers
pub mod Parse
pub mod Sync
pub mod Export
pub mod Protocol
pub mod Lookup
pub mod Bounds
pub mod Lifecycle
pub mod Exclusion
pub mod Progress
pub mod Promote
pub mod Ending
pub mod Answered
pub mod Outcomes
pub mod Refinement
