-- ===== src/Handoffs/Tables.antt =====
-- The tables of the handoff queue: `SCHEMA` in src/bridge_db/db.py, with each column. Times that
-- the database or the clock write are texts.
use bridge_db.Prelude.{
  ℕ, String, ◌≡◌, ◌↔◌, Bool, true, Option, List, arith, find, ◌==◌, nat_eq, nat_beq, Eq,
}
use bridge_db.Models.{Caller, SourceTrust}
use bridge_db.Conflicts.{Ledger}
use bridge_db.ContentIndex.{Entry}

pub data Status : Type 0 where
  pending active cleared : Status

abbrev pub status_rank : Status → ℕ
status_rank pending = 0
status_rank active = 1
status_rank cleared = 2

abbrev pub status_beq : Status → Status → Bool
status_beq a b = nat_beq (status_rank a) (status_rank b)

pub status_beq_iff : (a b : Status) → (status_beq a b ≡ true) ↔ (a ≡ b)
status_beq_iff a b = ground arith

instance abbrev pub status_eq : Eq Status
status_eq = record { beq = status_beq; beq_iff = status_beq_iff }

abbrev pub status_name : Status → String
status_name pending = "pending"
status_name active = "active"
status_name cleared = "cleared"

-- pending_handoffs
pub record Handoff : Type 0 where
  pub id : ℕ
  pub project_name : String
  pub project_path : Option String
  pub roadmap_file : Option String
  pub phase : Option String
  pub dispatched_from : String
  pub dispatched_at : String
  pub picked_up_at : Option String
  pub cleared_at : Option String
  pub status : Status
  pub canonical_key : Option String
  pub source_trust : SourceTrust
  pub claimed_by : Option Caller

-- handoff_session_capabilities; the primary key is handoff_id, and session_id and token_sha256
-- are unique
pub record Capability : Type 0 where
  pub handoff_id : ℕ
  pub session_id : String
  pub token_sha256 : String
  pub claimed_caller : Caller
  pub allowed_transition : String
  pub issued_at : String
  pub expires_at : String
  pub consumed_at : Option String
  pub recovered_at : Option String

pub data MatchBasis : Type 0 where
  exact canonical_alias : MatchBasis

-- handoff_lifecycle_receipts; event_type is 'cleared' and previous_status is 'active'
pub record Clearing : Type 0 where
  pub handoff_id : ℕ
  pub principal : Caller
  pub claimed_caller : Caller
  pub requested_project_name : String
  pub canonical_key : Option String
  pub match_basis : MatchBasis
  pub previous_claimant : Caller

-- handoff_cancellation_receipts; cancelled_by is 'operator-cli' and previous_claimant is NULL
pub record Cancellation : Type 0 where
  pub handoff_id : ℕ
  pub reason : String
  pub previous_status : Status
  pub reviewed_row_sha256 : String

pub data RecoveryBasis : Type 0 where
  legacy_without_capability expired_capability : RecoveryBasis

-- handoff_orphan_recovery_receipts; previous_status is 'active', recovered_by is 'operator-cli',
-- and handoff_id is unique
pub record Recovery : Type 0 where
  pub handoff_id : ℕ
  pub reason : String
  pub recovery_basis : RecoveryBasis
  pub previous_claimant : Caller
  pub claim_session_id : Option String
  pub capability_expires_at : Option String
  pub reviewed_row_sha256 : String

-- handoff_trust_quarantine; the primary key is handoff_id, row_json is the row's image
pub record Quarantined : Type 0 where
  pub handoff_id : ℕ
  pub row_json : String
  pub row_sha256 : String
  pub restored_at : Option String

pub record Tables : Type 0 where
  pub handoffs : List Handoff
  pub next_id : ℕ  -- AUTOINCREMENT
  pub capabilities : List Capability
  pub clearings : List Clearing
  pub cancellations : List Cancellation
  pub recoveries : List Recovery
  pub quarantine : List Quarantined
  pub conflicts : Ledger
  pub index : List Entry

-- WHERE id = ?
abbrev pub by_id : ℕ → Handoff → Bool
by_id id h = h.id == id

abbrev pub handoff : ℕ → List Handoff → Option Handoff
handoff id = find (by_id id)

-- the capability of a handoff, as the LEFT JOIN finds it
abbrev pub capability_of : ℕ → List Capability → Option Capability
capability_of id = find (λ c. c.handoff_id == id)
