-- ===== src/Handoffs/Complete.antt =====
-- `clear_handoff` of src/bridge_db/tools/handoffs.py. The capability is checked on what was read
-- first, and again under the write lock: `between` is what others commit between the two.
use Prim.Native.Nat.{Ordering}
use Prim.Native.String.{len, compare}
use text.Mathlib.Text.{starts_with}
use bridge_db.Prelude.{
  ℕ, String, Bool, true, false, ◌&&◌, ◌||◌, not, Option, none, some, List, [], ◌∷◌, leb, ltb, codes,
  strip, count_code, select, find, map, is_some, ◌==◌, ◌!=◌, nat_eq, string_eq, option_eq, list_eq,
  if◌then◌else◌,
}
use bridge_db.Models.{Caller, caller_eq}
use bridge_db.Platform.{Platform}
use bridge_db.Handoffs.Tables.{active, cleared, status_eq, Handoff, Capability, handoff}

abbrev pub capability_max_bytes : ℕ
capability_max_bytes = 512

-- The public envelope of a bearer value.
unfoldable pub well_formed : String → Bool
well_formed value =
    starts_with value "hcap1."
    && codes value == strip (codes value)
    && leb (len value) capability_max_bytes
    && count_code b'.' (codes value) == 2

unfoldable pub completion_capability_hash : Platform → String → Option String
unfolding well_formed
completion_capability_hash pf value = if well_formed value then some (pf.sha256 value) else none

-- "(project_name = ? OR canonical_key = ?)", or the first part alone
abbrev pub key_matches : Option String → Option String → Bool
key_matches none key = false
key_matches (some canonical) key = key == some canonical

abbrev pub matches : String → Option String → Handoff → Bool
matches name canonical h = h.project_name == name || key_matches canonical h.canonical_key

-- ORDER BY dispatched_at DESC, id DESC: whether a row comes before another
abbrev pub comes_first : Handoff → Handoff → Bool
comes_first a b = elim (compare a.dispatched_at b.dispatched_at) [
  | Ordering.lt ↦ false
  | Ordering.eq ↦ ltb b.id a.id
  | Ordering.gt ↦ true
]

unfoldable pub insert_ordered : Handoff → List Handoff → List Handoff
insert_ordered h [] = h ∷ []
insert_ordered h (k ∷ ks) =
    let later = k ∷ insert_ordered h ks in if comes_first h k then h ∷ k ∷ ks else later

unfoldable pub newest_first : List Handoff → List Handoff
unfolding insert_ordered
newest_first [] = []
newest_first (h ∷ hs) = insert_ordered h (newest_first hs)

-- The ids of the project's handoffs that are not cleared and pass the test.
unfoldable pub open_ids : String → Option String → (Handoff → Bool) → List Handoff → List ℕ
unfolding newest_first
open_ids name canonical test hs =
    map (λ h. h.id)
      (newest_first (select (λ h. matches name canonical h && h.status != cleared && test h) hs))

pub record Refusal : Type 0 where
  pub reason_code : String
  pub reason : String
  pub refused_ids : List ℕ

pub data Cleared : Type 0 where
  no_active_handoff : Cleared
  refused : Refusal → Cleared
  completed : ℕ → List ℕ → String → Cleared  -- the id, the ids still open, the claiming session

pub record Clock : Type 0 where
  pub checked : ℕ  -- clock.now() against the expiry that was read first
  pub stamped : ℕ  -- clock.now() for consumed_at
  pub locked : ℕ  -- clock.now() against the expiry under the lock

-- handoff_session_capabilities JOIN pending_handoffs
unfoldable pub join_by_token :
    String → List Capability → List Handoff → Option (Capability × Handoff)
join_by_token hash capabilities hs = elim (find (λ c. c.token_sha256 == hash) capabilities) [
  | none ↦ none
  | some c ↦ elim (handoff c.handoff_id hs) [ none ↦ none | some h ↦ some (c, h) ]
]

pub record Check : Type 0 where
  pub reason_code : String
  pub reason : String
  pub foreign_claim : Bool

abbrev pub fail : String → String → Option Check
fail code reason = some (record { reason_code = code; reason = reason; foreign_claim = false })

abbrev pub fail_foreign : String → String → Bool → Option Check
fail_foreign code reason foreign =
    some (record { reason_code = code; reason = reason; foreign_claim = foreign })

-- capability["claimed_by"] not in (None, caller)
abbrev pub held_by_other : Option Caller → Caller → Bool
held_by_other none caller = false
held_by_other (some c) caller = c != caller

-- `expires_at is None` and `clock.now() >= expires_at`
abbrev pub check_expiry : ℕ → Option ℕ → Option Check
check_expiry now none =
    fail "invalid_capability_state" "Stored completion capability has an invalid expiry"
check_expiry now (some expires_at) =
    if leb expires_at now
    then fail "expired_session_capability"
        "Completion capability has expired; use audited orphan recovery"
    else none

abbrev pub then_check : Option Check → Option Check → Option Check
then_check (some c) later = some c
then_check none later = later

-- The checks in the order of the source; `none` lets the completion go on.
unfoldable pub check_capability :
    Platform → ℕ → String → Option String → Caller → ℕ → Capability → Handoff → Option Check
check_capability pf id name canonical caller now c h =
    if c.handoff_id != id
    then fail "wrong_handoff" "Completion capability is bound to a different handoff"
    else if not (matches name canonical h)
    then fail "wrong_project" "Completion capability is bound to a different project"
    else if c.claimed_caller != caller
    then fail_foreign "wrong_role" "Completion capability belongs to a different authorized role"
        true
    else if c.allowed_transition != "clear"
    then fail "wrong_transition" "Completion capability does not authorize this transition"
    else if is_some c.recovered_at
    then fail "recovered_session_capability"
        "Completion capability was retired by audited orphan recovery"
    else if is_some c.consumed_at
    then fail "replayed_session_capability" "Completion capability has already been consumed"
    else then_check (check_expiry now (pf.from_iso c.expires_at)) (
        if h.status != active || h.claimed_by != some caller
        then fail_foreign "claim_state_changed"
            "Handoff is no longer an active claim owned by this role"
            (held_by_other h.claimed_by caller)
        else none)
