-- ===== src/Handoffs/Refinement.antt =====
-- The handoff tools and ceremonies as runs of the protocol of Handoffs/Protocol.antt.
pub mod Composed
pub mod Tools
pub mod Completion
pub mod Creation
pub mod Operator
pub mod Recovery
