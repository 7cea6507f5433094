-- ===== src/Handoffs/Claim.antt =====
-- `pick_up_handoff` of src/bridge_db/tools/handoffs.py. The row is read first, and the claim is a
-- guarded UPDATE after it: `between` is what other connections commit between the two.
use bridge_db.Prelude.{
  ℕ, String, ◌<>◌, ◌+◌, ◌*◌, ◌/◌, Bool, true, false, ◌&&◌, ◌||◌, not, Option, none, some, List, [],
  ◌∷◌, ◌++◌, leb, str, count_where, update_where, exists, ◌==◌, ◌!=◌, nat_eq, string_eq,
  if◌then◌else◌,
}
use bridge_db.Models.{
  Caller, Principal, SourceTrust, operator, caller_eq, trust_eq, caller_name, trust_name,
  principal_name,
}
use bridge_db.Json.{Json, field, end, null, string}
use bridge_db.Platform.{Platform}
use bridge_db.Errors.{
  not_a_claimant, no_such_handoff, handoff_not_pending, untrusted_handoff, raced_claim,
  integrity_error,
}
use bridge_db.Exec.{Exec, Result, ok, err, pure, raise, raise_if, ◌>>=◌, ◌>>◌}
use bridge_db.Auth.{require_caller, require_bound_caller, get_principal, name_of}
use bridge_db.Conflicts.{Attempt, Ledger, record_write_conflict, record_write_conflict_once}
use bridge_db.Handoffs.Tables.{
  pending, active, status_eq, status_name, Handoff, Capability, Tables, handoff,
}
use bridge_db.Handoffs.Store.{
  Store, Call, gate, audit, sometimes, get_tables, put_tables, always_tx,
}

abbrev pub claimants : Caller → Bool
claimants caller = caller == Caller.cc || caller == Caller.codex

abbrev pub capability_ttl_hours : ℕ
capability_ttl_hours = 24

-- microseconds
abbrev pub microseconds_per_hour : ℕ
microseconds_per_hour = 3600000000

-- The texts that the token provider gave for the session and the secret, and the clock's reading.
pub record Mint : Type 0 where
  pub session : String
  pub secret : String
  pub issued_at : ℕ

unfoldable pub bearer : Mint → String
bearer m = "hcap1." <> m.session <> "." <> m.secret

module _ (pf : Platform) where
  -- timespec="seconds" drops the microseconds
  unfoldable pub utc_text : ℕ → String
  utc_text t = pf.iso_z (t / 1000000)

  unfoldable pub mint_hash : Mint → String
  unfolding bearer
  mint_hash m = pf.sha256 (bearer m)

  abbrev pub expiry : Mint → ℕ
  expiry m = m.issued_at + capability_ttl_hours * microseconds_per_hour

  abbrev pub minted : ℕ → Caller → Mint → Capability
  minted id caller m = record {
    handoff_id = id;
    session_id = m.session;
    token_sha256 = mint_hash m;
    claimed_caller = caller;
    allowed_transition = "clear";
    issued_at = utc_text m.issued_at;
    expires_at = utc_text (expiry m);
    consumed_at = none;
    recovered_at = none;
  }

-- UPDATE … WHERE id = ? AND status = 'pending' AND source_trust = ?
abbrev pub claimable : ℕ → SourceTrust → Handoff → Bool
claimable id trust h = h.id == id && h.status == pending && h.source_trust == trust

abbrev pub claim_row : Caller → String → Handoff → Handoff
claim_row caller now h = record h {
  status = active;
  picked_up_at = some now;
  claimed_by = some caller;
}

abbrev pub claimed : ℕ → SourceTrust → Caller → String → Tables → Tables
claimed id trust caller now t = record t {
  handoffs = update_where (claimable id trust) (claim_row caller now) t.handoffs;
}

-- A row that breaks the primary key or a UNIQUE constraint is refused.
abbrev pub clashes : Capability → Capability → Bool
clashes new c =
    c.handoff_id == new.handoff_id
    || c.session_id == new.session_id
    || c.token_sha256 == new.token_sha256

unfoldable pub insert_capability : Capability → List Capability → Option (List Capability)
insert_capability new capabilities =
    if exists (clashes new) capabilities then none else some (capabilities ++ new ∷ [])

pub record Claim : Type 0 where
  pub handoff_id : ℕ
  pub project_name : String
  pub canonical_key : Option String
  pub source_trust : SourceTrust
  pub claimed_by : Caller
  pub claim_session_id : String
  pub completion_capability : String
  pub capability_expires_at : String

abbrev pub text_or_null : Option String → Json
text_or_null none = null
text_or_null (some s) = string s

abbrev pub name_or_null : Option Caller → Json
name_or_null none = null
name_or_null (some c) = string (caller_name c)

abbrev pub status_or_null : Option Handoff → Json
status_or_null none = null
status_or_null (some h) = string (status_name h.status)

abbrev pub claim_attempt : ℕ → Caller → Option Principal → String → SourceTrust → Attempt
claim_attempt id caller principal reason trust = record {
  surface = "handoff";
  target_key = str id;
  operation = "pick_up_handoff";
  attempted_by = some (caller_name caller);
  principal = name_of principal;
  stale_version = none;
  current_version = none;
  stale_updated_at = none;
  current_updated_at = none;
  attempted_source_trust = none;
  current_source_trust = some trust;
  attempted_content_sha256 = none;
  current_content_sha256 = none;
  reason = reason;
}

abbrev pub staged_receipt : Store → Option ℕ → Ledger → Result ℕ × Store
staged_receipt s none ledger = (err integrity_error, s)
staged_receipt s (some id) ledger =
    (ok id, record s { tables = record s.tables { conflicts = ledger } })

-- The receipt's id; the RuntimeError of a failed overflow is `integrity_error`.
abbrev pub stage_conflict : (Ledger → Option ℕ × Ledger) → Exec Store ℕ
stage_conflict write s =
    let (receipt, ledger) = write s.tables.conflicts in staged_receipt s receipt ledger

-- An f-string shows None as "None".
abbrev pub name_or_none : Option Principal → String
name_or_none none = "None"
name_or_none (some p) = principal_name p

-- The checks that `pick_up_handoff` and `clear_handoff` begin with.
unfoldable pub authorised : {A : Type 0} → Call → Caller → String → Exec Store A → Exec Store A
authorised call caller tool body = do
  gate (require_caller call.settings call.conn caller tool)
  gate (require_bound_caller call.settings call.conn caller tool)
  raise_if (not (claimants caller)) (not_a_claimant caller)
  body

module _ (pf : Platform) (call : Call) (caller : Caller) (id : ℕ) where
  abbrev pub principal : Option Principal
  principal = get_principal call.settings call.conn

  unfoldable pub stale_receipt : Handoff → Ledger → Option ℕ × Ledger
  stale_receipt row =
      record_write_conflict_once pf
        (claim_attempt id caller principal "stale_claim" row.source_trust)
        (field "project_name" (string row.project_name) (
          field "current_status" (string (status_name row.status))
            (field "claimed_by" (name_or_null row.claimed_by) end)))
        call.db_now

  unfoldable pub report_stale : Handoff → ℕ → Exec Store Claim
  report_stale row receipt = do
    sometimes "stale_claim_receipt_written"
    audit "pick_up_handoff" (some (caller_name caller)) (some row.project_name) false (
        some (
          "decision=stale_claim status="
          <> status_name row.status
          <> " receipt_id="
          <> str receipt))
    raise (handoff_not_pending id receipt)

  -- A handoff that is no longer pending: the receipt of a stale claim, then the error.
  unfoldable pub refuse_stale : Handoff → Exec Store Claim
  unfolding stale_receipt report_stale
  refuse_stale row = do receipt ← stage_conflict (stale_receipt row); report_stale row receipt

  unfoldable pub refuse_untrusted : Handoff → Exec Store Claim
  refuse_untrusted row = do
    audit "pick_up_handoff" (some (caller_name caller)) (some row.project_name) false (
        some (
          "source_trust="
          <> trust_name row.source_trust
          <> " decision=refused principal="
          <> name_or_none principal))
    raise (untrusted_handoff id row.source_trust)

  unfoldable pub race_receipt : Handoff → Tables → Ledger → Option ℕ × Ledger
  race_receipt row t =
      record_write_conflict pf (claim_attempt id caller principal "raced_claim" row.source_trust)
        (field "project_name" (string row.project_name)
          (field "current_status" (status_or_null (handoff id t.handoffs)) end))
        call.db_now

  unfoldable pub report_race : Handoff → ℕ → Exec Store Claim
  report_race row receipt = do
    sometimes "raced_claim_receipt_written"
    audit "pick_up_handoff" (some (caller_name caller)) (some row.project_name) false (
        some (
          "source_trust="
          <> trust_name row.source_trust
          <> " decision=raced receipt_id="
          <> str receipt))
    raise (raced_claim id receipt)

  -- The UPDATE changed no row: the receipt of the lost race in the same transaction.
  unfoldable pub lose_race : Handoff → Exec Store Claim
  unfolding race_receipt report_race
  lose_race row = do
    t ← get_tables
    receipt ← stage_conflict (race_receipt row t)
    report_race row receipt

  abbrev pub claim_result : Handoff → Mint → Claim
  claim_result row m = record {
    handoff_id = id;
    project_name = row.project_name;
    canonical_key = row.canonical_key;
    source_trust = row.source_trust;
    claimed_by = caller;
    claim_session_id = m.session;
    completion_capability = bearer m;
    capability_expires_at = utc_text pf (expiry pf m);
  }

  -- The capability's row joins the claim's transaction; where it is refused, all is rolled back.
  abbrev pub win : Handoff → Mint → Tables → Option (List Capability) → Exec Store Claim
  win row m t none = raise integrity_error
  win row m t (some capabilities) = do
    put_tables (record t { capabilities = capabilities })
    audit "pick_up_handoff" (some (caller_name caller)) (some row.project_name) true
        (some ("source_trust=" <> trust_name row.source_trust <> " decision=allowed"))
    pure (claim_result row m)

  -- From the UPDATE on, with the row that was read before.
  unfoldable pub claim : Handoff → Mint → Exec Store Claim
  unfolding insert_capability lose_race
  claim row m = do
    t ← get_tables
    let rowcount = count_where (claimable id row.source_trust) t.handoffs
    always_tx t (leb rowcount 1) 1 "INV-1: handoff claim CAS must commit at most one winner"
    if rowcount == 0
        then lose_race row
        else win row m (claimed id row.source_trust caller call.db_now t)
            (insert_capability (minted pf id caller m) t.capabilities)

  abbrev pub decide : Mint → Handoff → Exec Store Claim
  decide m row =
      if row.status != pending
      then refuse_stale row
      else if row.source_trust != operator
      then refuse_untrusted row
      else claim row m

  abbrev pub with_row : Mint → Option Handoff → Exec Store Claim
  with_row m none = raise (no_such_handoff id)
  with_row m (some row) = decide m row

  abbrev pub read_and_claim : (Tables → Tables) → Mint → Exec Store Claim
  read_and_claim between m = do
    t ← get_tables
    put_tables (between t)
    with_row m (handoff id t.handoffs)

  unfoldable pub pick_up_handoff : (Tables → Tables) → Mint → Exec Store Claim
  unfolding refuse_stale refuse_untrusted claim
  pick_up_handoff between m = authorised call caller "pick_up_handoff" (read_and_claim between m)
