-- ===== src/Handoffs/Transaction.antt =====
-- The completion's transaction and the whole `clear_handoff` of src/bridge_db/tools/handoffs.py.
use bridge_db.Prelude.{
  ℕ, String, ◌<>◌, Bool, true, false, ◌&&◌, not, Option, none, some, List, [], ◌∷◌, ◌++◌, leb, str,
  count_where, update_where, find, is_none, ◌==◌, ◌!=◌, nat_eq, string_eq, option_eq, if◌then◌else◌,
}
use bridge_db.Models.{Caller, caller_eq, caller_name}
use bridge_db.Platform.{Platform}
use bridge_db.Exec.{Exec, pure, ◌>>=◌, ◌>>◌}
use bridge_db.Handoffs.Tables.{
  active, cleared, status_eq, Handoff, Capability, MatchBasis, exact, canonical_alias, Tables,
  handoff,
}
use bridge_db.Handoffs.Store.{Store, Call, audit, sometimes, get_tables, put_tables, always_tx}
use bridge_db.Handoffs.Claim.{utc_text, authorised}
use bridge_db.Handoffs.Complete.{
  Cleared, no_active_handoff, refused, completed, Clock, Check, completion_capability_hash,
  open_ids, join_by_token, check_capability,
}

-- The row that the lock finds: WHERE c.handoff_id = ? AND c.token_sha256 = ?
abbrev pub by_handoff_and_token : ℕ → String → Capability → Bool
by_handoff_and_token id hash c = c.handoff_id == id && c.token_sha256 == hash

unfoldable pub locked_row : ℕ → String → Tables → Option (Capability × Handoff)
locked_row id hash t = elim (find (by_handoff_and_token id hash) t.capabilities) [
  | none ↦ none
  | some c ↦ elim (handoff c.handoff_id t.handoffs) [ none ↦ none | some h ↦ some (c, h) ]
]

abbrev pub unexpired : ℕ → Option ℕ → Bool
unexpired now none = false
unexpired now (some expiry) = not (leb expiry now)

-- The negation of the checks under the lock.
unfoldable pub still_live : Platform → Caller → ℕ → Option (Capability × Handoff) → Bool
still_live pf caller now none = false
still_live pf caller now (some (c, h)) =
    is_none c.consumed_at
    && is_none c.recovered_at
    && h.status == active
    && h.claimed_by == some caller
    && unexpired now (pf.from_iso c.expires_at)

abbrev pub completable : ℕ → Caller → Handoff → Bool
completable id caller h = h.id == id && h.status == active && h.claimed_by == some caller

abbrev pub clear_row : String → Handoff → Handoff
clear_row now h = record h { status = cleared; cleared_at = some now }

abbrev pub consumable : ℕ → String → Capability → Bool
consumable id hash c =
    c.handoff_id == id && c.token_sha256 == hash && is_none c.consumed_at && is_none c.recovered_at

abbrev pub consume_row : String → Capability → Capability
consume_row at c = record c { consumed_at = some at }

abbrev pub match_basis : String → Handoff → MatchBasis
match_basis name h = if h.project_name == name then exact else canonical_alias

-- The two updates and the receipt.
abbrev pub completed_tables :
    ℕ → String → Caller → String → String → String → Handoff → Tables → Tables
completed_tables id hash caller name now consumed_at seen t = record t {
  handoffs = update_where (completable id caller) (clear_row now) t.handoffs;
  capabilities = update_where (consumable id hash) (consume_row consumed_at) t.capabilities;
  clearings =
      t.clearings
      ++ record {
        handoff_id = id;
        principal = caller;
        claimed_caller = caller;
        requested_project_name = name;
        canonical_key = seen.canonical_key;
        match_basis = match_basis name seen;
        previous_claimant = caller;
      }
        ∷ [];
}

module _ (pf : Platform) (call : Call) (caller : Caller) (name : String) where
  abbrev pub canonical : Option String
  canonical = (call.resolve name).canonical_key

  abbrev pub foreign_event : Bool → Exec Store (Unit {0})
  foreign_event true = sometimes "clear_refused_foreign_claim"
  foreign_event false = pure tt

  abbrev session_or_unknown : Option String → String
  session_or_unknown none = "unknown"
  session_or_unknown (some s) = if s == "" then "unknown" else s

  abbrev pub report_refusal : Check → ℕ → Option String → Exec Store Cleared
  report_refusal check id session = do
    audit "clear_handoff.refused_session_capability" (some (caller_name caller)) (some name) false (
        some (
          "reason_code="
          <> check.reason_code
          <> " handoff_id="
          <> str id
          <> " claim_session_id="
          <> session_or_unknown session))
    pure (
        refused (record {
          reason_code = check.reason_code;
          reason = check.reason;
          refused_ids = id ∷ [];
        }))

  -- The inner function `refused`: the events, and the answer.
  unfoldable pub refuse : Check → ℕ → Option String → Exec Store Cleared
  refuse check id session = do
    sometimes "clear_refused_session_capability"
    foreign_event check.foreign_claim
    report_refusal check id session

  abbrev pub plain : String → String → Check
  plain code reason = record { reason_code = code; reason = reason; foreign_claim = false }

  -- The handoff id or the capability is missing.
  unfoldable pub without_capability : Option ℕ → List ℕ → Exec Store Cleared
  without_capability id [] = pure no_active_handoff
  without_capability id (first ∷ _) =
      refuse
        (plain "session_capability_required"
          "Claiming-session handoff ID and completion capability are required")
        (elim id [ none ↦ first | some i ↦ i ]) none

  abbrev pub refuse_race : ℕ → String → String → Exec Store Cleared
  refuse_race id session reason = do
    sometimes "clear_refused_race"
    refuse (plain "capability_state_changed" reason) id (some session)

  abbrev pub is_empty : List ℕ → Bool
  is_empty [] = true
  is_empty (_ ∷ _) = false

  abbrev pub report_completed : ℕ → String → List ℕ → Exec Store Cleared
  report_completed id session left = do
    audit "clear_handoff" (some (caller_name caller)) (some name) true
        (some ("handoff_id=" <> str id <> " claim_session_id=" <> session <> " decision=allowed"))
    pure (completed id left session)

  abbrev pub report : ℕ → String → Exec Store Cleared
  report id session = do
    t ← get_tables
    let left = open_ids name canonical (λ h. h.id != id) t.handoffs
    foreign_event (not (is_empty left))
    report_completed id session left

  -- The updates, the capability's row count and the receipt.
  abbrev pub commit_completion : ℕ → String → String → Clock → Handoff → Tables → Exec Store Cleared
  commit_completion id hash session clock seen t = do
    always_tx t (count_where (consumable id hash) t.capabilities == 1) 14
        "INV-14: one completion consumes exactly one session capability"
    put_tables (completed_tables id hash caller name call.db_now (utc_text pf clock.stamped) seen t)
    report id session

  -- From BEGIN IMMEDIATE on, with the handoff that was read before.
  unfoldable pub complete : ℕ → String → String → Clock → Handoff → Exec Store Cleared
  unfolding refuse locked_row still_live
  complete id hash session clock seen = do
    t ← get_tables
    if not (still_live pf caller clock.locked (locked_row id hash t))
        then refuse_race id session "Handoff capability state changed before completion"
        else if count_where (completable id caller) t.handoffs != 1
        then refuse_race id session "Handoff claim changed before completion"
        else commit_completion id hash session clock seen t

  abbrev pub settle :
      (Tables → Tables)
      → ℕ
      → String
      → Clock
      → Capability
      → Handoff
      → Option Check
      → Exec Store Cleared
  settle between id hash clock c h (some check) = refuse check id (some c.session_id)
  settle between id hash clock c h none = do
    t ← get_tables
    put_tables (between t)
    complete id hash c.session_id clock h

  abbrev pub with_join :
      (Tables → Tables) → ℕ → String → Clock → Option (Capability × Handoff) → Exec Store Cleared
  with_join between id hash clock none =
      refuse (plain "invalid_session_capability" "Completion capability is not recognized") id none
  with_join between id hash clock (some (c, h)) =
      settle between id hash clock c h
        (check_capability pf id name canonical caller clock.checked c h)

  abbrev pub with_hash : (Tables → Tables) → ℕ → Clock → Option String → Exec Store Cleared
  with_hash between id clock none =
      refuse
        (plain "invalid_session_capability"
          "Completion capability is malformed or exceeds the size limit")
        id none
  with_hash between id clock (some hash) = do
    t ← get_tables
    with_join between id hash clock (join_by_token hash t.capabilities t.handoffs)

  abbrev pub with_arguments :
      (Tables → Tables) → Clock → Option ℕ → Option String → Exec Store Cleared
  with_arguments between clock (some id) (some value) =
      with_hash between id clock (completion_capability_hash pf value)
  with_arguments between clock id value = do
    t ← get_tables
    without_capability id (open_ids name canonical (λ _. true) t.handoffs)

  unfoldable pub clear_handoff :
      (Tables → Tables) → Clock → Option ℕ → Option String → Exec Store Cleared
  unfolding complete refuse
  clear_handoff between clock id value =
      authorised call caller "clear_handoff" (with_arguments between clock id value)
