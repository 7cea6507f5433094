-- ===== src/Errors.antt =====
-- The errors that the tools raise: `ToolError` by the place that raises it, with the values that
-- its message shows, and the two failures below the tools (a refused statement, a broken invariant).
use bridge_db.Prelude.{ℕ, String}
use bridge_db.Models.{Principal, Caller, SourceTrust}

pub data ToolError : Type 0 where
  -- auth.py
  credential_expired credential_generation_changed credential_principal_changed : ToolError
  credential_not_enrolled credential_invalid unauthenticated : ToolError
  credential_out_of_scope : String → ToolError
  caller_mismatch : Principal → Caller → ToolError
  -- capacity.py: the stable code, the maximum and the actual size
  capacity_exceeded : String → ℕ → ℕ → ToolError
  -- tools/handoffs.py
  not_a_dispatcher : Caller → ToolError
  total_row_quota_exceeded open_queue_quota_exceeded : ToolError
  not_a_claimant : Caller → ToolError
  no_such_handoff : ℕ → ToolError
  handoff_not_pending : ℕ → ℕ → ToolError
  untrusted_handoff : ℕ → SourceTrust → ToolError
  raced_claim : ℕ → ℕ → ToolError
  -- tools/context.py
  unknown_section section_not_found : String → ToolError
  not_the_steward : String → Caller → ToolError
  context_total_exceeded malformed_marker nested_marker : ToolError
  unknown_marker mismatched_end unclosed_marker : String → ToolError
  duplicate_section : String → ToolError
  bridge_file_missing : ToolError
  -- owner_delegation.OwnerDelegationError
  delegation_error : String → ToolError
  -- sqlite3.IntegrityError, and invariants.InvariantViolation by its number
  integrity_error : ToolError
  invariant_violation : ℕ → ToolError
