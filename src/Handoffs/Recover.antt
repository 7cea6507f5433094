-- ===== src/Handoffs/Recover.antt =====
-- `run_recover_orphaned_handoff` of src/bridge_db/__main__.py: the operator retires an active claim
-- whose capability has expired, or that never had one.
use bridge_db.Prelude.{
  ℕ, String, ◌<>◌, Bool, true, false, ◌&&◌, ◌||◌, not, Option, none, some, List, [], ◌∷◌, ◌++◌, ltb,
  str, count_where, update_where, exists, is_none, ◌==◌, ◌!=◌, nat_eq, string_eq, option_eq,
  if◌then◌else◌,
}
use bridge_db.Models.{Caller, caller_eq, caller_name}
use bridge_db.Json.{Fields, field, end, string, object, null}
use bridge_db.Platform.{Platform}
use bridge_db.Errors.{integrity_error}
use bridge_db.Exec.{raise, Exec, pure, ◌>>=◌, ◌>>◌}
use bridge_db.Handoffs.Tables.{
  active, status_eq, Handoff, Capability, Recovery, RecoveryBasis, legacy_without_capability,
  expired_capability, Tables, handoff, capability_of,
}
use bridge_db.Handoffs.Store.{Store, audit, get_tables, put_tables}
use bridge_db.Handoffs.Claim.{text_or_null, utc_text}
use bridge_db.Handoffs.Transaction.{completable, clear_row}
use bridge_db.Handoffs.Ceremonies.{Ceremony, row_fields, answered}

-- _ORPHAN_RECOVERY_FIELDS behind the handoff's own; the LEFT JOIN gives NULLs without a capability
unfoldable pub capability_fields : Option Capability → Fields
capability_fields none = field "claim_session_id" null (
    field "capability_token_sha256" null (
      field "capability_claimed_caller" null (
        field "capability_allowed_transition" null (
          field "capability_issued_at" null (
            field "capability_expires_at" null
              (field "capability_consumed_at" null (field "capability_recovered_at" null end)))))))
capability_fields (some c) = field "claim_session_id" (string c.session_id) (
    field "capability_token_sha256" (string c.token_sha256) (
      field "capability_claimed_caller" (string (caller_name c.claimed_caller)) (
        field "capability_allowed_transition" (string c.allowed_transition) (
          field "capability_issued_at" (string c.issued_at) (
            field "capability_expires_at" (string c.expires_at) (
              field "capability_consumed_at" (text_or_null c.consumed_at)
                (field "capability_recovered_at" (text_or_null c.recovered_at) end)))))))

unfoldable pub recovery_digest : Platform → Handoff → Option Capability → String
unfolding row_fields capability_fields
recovery_digest pf h c = pf.sha256 (pf.dumps (object (row_fields h (capability_fields c))))

-- The expiry of a live capability lies ahead, or cannot be read.
abbrev pub expired : Platform → ℕ → Capability → Bool
expired pf now c = elim (pf.from_iso c.expires_at) [ none ↦ false | some e ↦ not (ltb now e) ]

-- What the review refuses a claim for: a capability that is spent, unreadable or live.
abbrev pub recoverable : Platform → ℕ → Option Capability → Bool
recoverable pf now none = true
recoverable pf now (some c) = is_none c.consumed_at && is_none c.recovered_at && expired pf now c

-- Under the lock only the expiry is read again.
abbrev pub still_expired : Platform → ℕ → Option Capability → Option Capability → Bool
still_expired pf now none current = true
still_expired pf now (some seen) none = false
still_expired pf now (some seen) (some c) = expired pf now c

abbrev pub basis : Option Capability → RecoveryBasis
basis none = legacy_without_capability
basis (some c) = expired_capability

abbrev basis_name : RecoveryBasis → String
basis_name legacy_without_capability = "legacy_without_capability"
basis_name expired_capability = "expired_capability"

abbrev session_or_legacy : Option String → String
session_or_legacy none = "legacy"
session_or_legacy (some s) = if s == "" then "legacy" else s

abbrev pub session_of : Option Capability → Option String
session_of none = none
session_of (some c) = some c.session_id

abbrev pub expiry_of : Option Capability → Option String
expiry_of none = none
expiry_of (some c) = some c.expires_at

-- WHERE handoff_id = ? AND session_id = ? AND consumed_at IS NULL AND recovered_at IS NULL
abbrev pub retirable : ℕ → String → Capability → Bool
retirable id session c =
    c.handoff_id == id && c.session_id == session && is_none c.consumed_at && is_none c.recovered_at

abbrev pub retire_row : String → Capability → Capability
retire_row at c = record c { recovered_at = some at }

-- The capabilities after the second UPDATE; `none` where it did not change one row.
abbrev pub retire : ℕ → Option Capability → String → List Capability → Option (List Capability)
retire id none at capabilities = some capabilities
retire id (some seen) at capabilities =
    if count_where (retirable id seen.session_id) capabilities == 1
    then some (update_where (retirable id seen.session_id) (retire_row at) capabilities)
    else none

module _ (pf : Platform) (env : Ceremony) (id : ℕ) (reason : String) where
  abbrev pub recovered_tables :
      Handoff → Option Capability → Caller → List Capability → Tables → Tables
  recovered_tables row held claimant capabilities t = record t {
    handoffs = update_where (completable id claimant) (clear_row env.db_now) t.handoffs;
    capabilities = capabilities;
    recoveries =
        t.recoveries
        ++ record {
          handoff_id = id;
          reason = reason;
          recovery_basis = basis held;
          previous_claimant = claimant;
          claim_session_id = session_of held;
          capability_expires_at = expiry_of held;
          reviewed_row_sha256 = recovery_digest pf row held;
        }
          ∷ [];
  }

  abbrev pub report_recovery :
      Handoff → Option Capability → Caller → Tables → List Capability → Exec Store Bool
  report_recovery row held claimant t capabilities = do
    put_tables (recovered_tables row held claimant capabilities t)
    audit "handoff.operator_orphan_recovery" (some "operator-cli") (some row.project_name) true (
        some (
          "handoff_id="
          <> str id
          <> " previous_claimant="
          <> caller_name claimant
          <> " claim_session_id="
          <> session_or_legacy (session_of held)
          <> " basis="
          <> basis_name (basis held)
          <> " sha256="
          <> recovery_digest pf row held))
    pure true

  -- The guarded updates; a second receipt of one handoff breaks its UNIQUE constraint.
  abbrev pub commit_recovery :
      Handoff → Option Capability → Caller → Tables → Option (List Capability) → Exec Store Bool
  commit_recovery row held claimant t none = pure false
  commit_recovery row held claimant t (some capabilities) =
      if exists (λ (r : Recovery). r.handoff_id == id) t.recoveries
      then raise integrity_error
      else report_recovery row held claimant t capabilities

  abbrev pub write_recovery : Handoff → Option Capability → Caller → Exec Store Bool
  write_recovery row held claimant = do
    t ← get_tables
    if count_where (completable id claimant) t.handoffs != 1
        then pure false
        else commit_recovery row held claimant t
            (retire id held (utc_text pf env.stamped_at) t.capabilities)

  abbrev pub recover_found :
      Handoff → Option Capability → Caller → Handoff → Option Capability → Exec Store Bool
  recover_found row held claimant current found =
      if recovery_digest pf current found != recovery_digest pf row held
      then pure false
      else if not (still_expired pf env.locked_at held found)
      then pure false
      else write_recovery row held claimant

  -- Under the lock, with the row and the capability that were reviewed.
  abbrev pub recover_locked :
      Handoff → Option Capability → Caller → Option Handoff → Exec Store Bool
  recover_locked row held claimant none = pure false
  recover_locked row held claimant (some current) = do
    t ← get_tables
    recover_found row held claimant current (capability_of id t.capabilities)

  abbrev pub lock_and_recover : Handoff → Option Capability → Caller → Exec Store Bool
  lock_and_recover row held claimant = do
    t ← get_tables
    put_tables (env.between t)
    recover_locked row held claimant (handoff id (env.between t).handoffs)

  abbrev pub recover_owned : Handoff → Option Capability → Option Caller → Exec Store Bool
  recover_owned row held none = pure false
  recover_owned row held (some claimant) =
      if row.status != active || not (recoverable pf env.reviewed_at held)
      then pure false
      else if not (answered ("recover" ∷ []) env.answer)
      then pure false
      else lock_and_recover row held claimant

  abbrev pub recover_reviewed : Option Capability → Option Handoff → Exec Store Bool
  recover_reviewed held none = pure false
  recover_reviewed held (some row) = recover_owned row held row.claimed_by

  unfoldable pub run_recover_orphaned_handoff : Exec Store Bool
  unfolding recovery_digest
  run_recover_orphaned_handoff = if id == 0 || reason == "" || not env.tty then pure false else do
    t ← get_tables
    recover_reviewed (capability_of id t.capabilities) (handoff id t.handoffs)
