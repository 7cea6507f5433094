-- ===== src/Lib.antt =====
-- bridge-db keeps the shared state of several assistants in one SQLite database and serves it
-- by tools. This library models how work is handed from one assistant to another, how the
-- shared context is written, and what guards both.
--
-- The parts and their files, with paths from the repository's root:
--   Models: the callers, principals, trust labels and section owners of
--     src/bridge_db/models.py.
--   Json, Errors, Exec, Audit, Platform: the values of JSON, the errors of the tools,
--     computations that change a state and may raise, the events of src/bridge_db/audit.py, and
--     the functions of Python that the code calls (a digest, the JSON encoder and two
--     conversions of time stamps), which are parameters.
--   Auth: src/bridge_db/auth.py. Auth/Grants loads the enrolment registry; Auth has the gates
--     require_caller, require_bound_caller and require_bound_principal and the clamp of trust
--     labels. A gate works on the audit trail and reads the mode, the registry and the clock
--     from Settings.
--   Conflicts: the write-conflict ledger of src/bridge_db/db.py, and ContentIndex its FTS rows.
--   Capacity: the byte checks of src/bridge_db/capacity.py, and BoundedJson its encoder of
--     bounded JSON.
--   Session: the tables and the audit trail that a tool works on, with always_tx and sometimes
--     of src/bridge_db/invariants.py; Session/Runs composes what its parts commit.
--   Resolver: resolve of src/bridge_db/project_resolver.py, over a compiled index.
--   Handoffs: src/bridge_db/tools/handoffs.py and the ceremonies of src/bridge_db/__main__.py.
--     Tables has the tables, Store the state of a tool call, Create, Claim, Complete and
--     Transaction the three tools that write, Listing the tool that lists them, Ceremonies and
--     Recover three terminal ceremonies, Quarantine what the two of the trust quarantine write.
--     Protocol is the abstract view: a step for each transaction that may be committed;
--     Refinement, Invariant, Trust, Lifecycle, Quotas and Outcomes are about its runs and the
--     handlers.
--   Context: src/bridge_db/tools/context.py. Sections has the tables and their triggers, Upsert
--     the compare-and-swap _upsert_section, Update the tools update_section, get_section and
--     get_all_sections, Markers and Parse parse_owned_sections, Markers/Render the owned
--     sections and Export the state of an export, as src/bridge_db/tools/export.py writes them,
--     Sync sync_from_file, Promote run_promote_section of src/bridge_db/__main__.py. Protocol is
--     the abstract view of what is committed: runs of the tools' writes, and histories of writes
--     and promotions; Refinement, Bounds, Lifecycle, Ending, Answered, Exclusion, Progress and
--     Outcomes are about it and the tools.
--   Delegation: src/bridge_db/owner_delegation.py. Resources has the images of what can be
--     delegated, Manifest load_owner_delegation_manifest, Grants
--     apply_owner_delegation_manifest, and Use resolve_owner_delegation and
--     consume_owner_delegation.
--   Witnesses: one database's life on concrete data.
--
-- A handler is a function on the store. Where the source reads and later writes under a guard,
-- what other connections commit in between is an argument, a function on the tables; a
-- synchronisation alone is modelled without commits of others between its statements. A raise
-- after a rollback gives the tables back as they were; the audit trail keeps its events.
-- Numbers are unbounded naturals, as Python's are; times are microseconds, or texts where the
-- database writes them. Only BoundedJson runs on fuel, of which more than the value has nodes
-- is enough; any other recursion is on a list or a text.
--
-- Not modelled: the reviews of the trust quarantine at the terminal, the activity log, snapshots,
-- costs, exports beyond the owned sections, recall, health, recovery batches and the deployment
-- tools; files, sockets, the MCP server, SQLite's own behaviour beyond the statements that are
-- used, the texts of error messages and what a terminal shows; the case folding of Unicode, which
-- is a parameter of the resolver.
pub mod Prelude
pub mod Models
pub mod Json
pub mod Errors
pub mod Exec
pub mod Audit
pub mod Auth
pub mod Session
pub mod Platform
pub mod Conflicts
pub mod Capacity
pub mod ContentIndex
pub mod Context
pub mod Delegation
pub mod Handoffs
pub mod Resolver
pub mod Witnesses
