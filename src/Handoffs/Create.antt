-- ===== src/Handoffs/Create.antt =====
-- `create_handoff` and `get_pending_handoffs` of src/bridge_db/tools/handoffs.py.
use bridge_db.Prelude.{
  ℕ, suc, String, ◌<>◌, Bool, true, false, ◌&&◌, ◌||◌, not, Option, none, some, [], ◌∷◌, ◌++◌, ltb,
  leb, str, count_where, length, ◌==◌, ◌!=◌, nat_eq, if◌then◌else◌,
}
use bridge_db.Models.{Caller, SourceTrust, agent, caller_eq, caller_name, trust_name}
use bridge_db.Errors.{
  ToolError, not_a_dispatcher, total_row_quota_exceeded, open_queue_quota_exceeded,
}
use bridge_db.Exec.{Exec, pure, raise, lift, raise_if, ◌>>=◌, ◌>>◌}
use bridge_db.Auth.{require_bound_caller, clamp_source_trust}
use bridge_db.Capacity.{require_utf8_bytes, require_combined_bytes}
use bridge_db.ContentIndex.{upsert_fts_entry, fts_text_for_handoff}
use bridge_db.Resolver.{Resolution}
use bridge_db.Handoffs.Tables.{pending, active, status_eq, Handoff, Tables}
use bridge_db.Handoffs.Store.{Store, Call, gate, audit, get_tables, put_tables}

pub record Payload : Type 0 where
  pub project_name : String
  pub project_path : Option String
  pub roadmap_file : Option String
  pub phase : Option String

abbrev pub project_name_max : ℕ
project_name_max = 4096

abbrev pub project_path_max : ℕ
project_path_max = 16384

abbrev pub roadmap_file_max : ℕ
roadmap_file_max = 4096

abbrev pub phase_max : ℕ
phase_max = 65536

abbrev pub combined_max : ℕ
combined_max = 73728

abbrev pub open_quota : ℕ
open_quota = 100

abbrev pub total_rows_quota : ℕ
total_rows_quota = 10000

-- `_validate_handoff_payload`, in the order of the checks; it has no state
unfoldable pub validate_handoff_payload : Payload → Exec (Unit {0}) (Unit {0})
validate_handoff_payload p = do
  name ← lift (
      require_utf8_bytes (some p.project_name) project_name_max
        "handoff.project_name_utf8_bytes_exceeded")
  path ← lift (
      require_utf8_bytes p.project_path project_path_max "handoff.project_path_utf8_bytes_exceeded")
  roadmap ← lift (
      require_utf8_bytes p.roadmap_file roadmap_file_max "handoff.roadmap_file_utf8_bytes_exceeded")
  step ← lift (require_utf8_bytes p.phase phase_max "handoff.phase_utf8_bytes_exceeded")
  lift (
      require_combined_bytes (name ∷ path ∷ roadmap ∷ step ∷ []) combined_max
        "handoff.combined_utf8_bytes_exceeded")

-- status IN ('pending', 'active')
abbrev pub is_open : Handoff → Bool
is_open h = h.status == pending || h.status == active

abbrev pub new_handoff : ℕ → Payload → Option String → SourceTrust → String → Handoff
new_handoff id p canonical_key trust now = record {
  id = id;
  project_name = p.project_name;
  project_path = p.project_path;
  roadmap_file = p.roadmap_file;
  phase = p.phase;
  dispatched_from = "claude_ai";
  dispatched_at = now;
  picked_up_at = none;
  cleared_at = none;
  status = pending;
  canonical_key = canonical_key;
  source_trust = trust;
  claimed_by = none;
}

-- The quota test of the INSERT.
abbrev pub has_room : Tables → Bool
has_room t =
    ltb (count_where is_open t.handoffs) open_quota && ltb (length t.handoffs) total_rows_quota

-- The INSERT … SELECT … WHERE under both quotas, with the row of the index; `none` where no row
-- was inserted.
unfoldable pub insert_handoff :
    Payload → Option String → SourceTrust → String → Tables → Option (ℕ × Tables)
insert_handoff p canonical_key trust now t =
    if has_room t
    then some (
      t.next_id,
      record t {
        handoffs = t.handoffs ++ new_handoff t.next_id p canonical_key trust now ∷ [];
        next_id = suc t.next_id;
        index =
            upsert_fts_entry "handoff" (str t.next_id)
              (fts_text_for_handoff p.project_name p.project_path p.roadmap_file p.phase) t.index;
      },
    )
    else none

abbrev pub quota_error : Tables → ToolError
quota_error t =
    if leb total_rows_quota (length t.handoffs)
    then total_row_quota_exceeded
    else open_queue_quota_exceeded

pub record Created : Type 0 where
  pub handoff_id : ℕ
  pub canonical_key : Option String
  pub source_trust : SourceTrust
  pub source_trust_clamped : Bool

abbrev pub audit_unmatched : Caller → Payload → Bool → Exec Store (Unit {0})
audit_unmatched caller p true =
    audit "create_handoff.unmatched_project" (some (caller_name caller)) (some p.project_name) true
      (some "no canonical match in project-registry; flagged for triage")
audit_unmatched caller p false = pure tt

abbrev pub report_created :
    Caller → Payload → Resolution → SourceTrust → Bool → ℕ → Bool → Exec Store Created
report_created caller p resolution trust flag id unmatched = do
  audit "create_handoff" (some (caller_name caller)) (some p.project_name) true
      (some ("source_trust=" <> trust_name trust))
  audit_unmatched caller p unmatched
  pure (record {
    handoff_id = id;
    canonical_key = resolution.canonical_key;
    source_trust = trust;
    source_trust_clamped = flag;
  })

abbrev pub stage :
    Caller → Payload → Resolution → SourceTrust → Bool → Option (ℕ × Tables) → Exec Store Created
stage caller p resolution trust flag none = do t ← get_tables; raise (quota_error t)
stage caller p resolution trust flag (some (id, t)) = do
  put_tables t
  report_created caller p resolution trust flag id
      (resolution.registry_present && not resolution.matched)

-- The label is requested, so the clamp gives one back; "agent" is the tool's default.
abbrev pub label : Option SourceTrust → SourceTrust
label none = agent
label (some t) = t

-- From the clamped label on.
abbrev pub write_handoff : Call → Caller → Payload → SourceTrust → Bool → Exec Store Created
write_handoff call caller p trust flag = do
  lift (validate_handoff_payload p tt).0
  t ← get_tables
  let resolution = call.resolve p.project_name
  stage caller p resolution trust flag
      (insert_handoff p resolution.canonical_key trust call.db_now t)

abbrev pub clamp_and_write : Call → Caller → Payload → SourceTrust → Exec Store Created
clamp_and_write call caller p requested = do
  trust ← gate (clamp_source_trust call.settings (some requested) caller "create_handoff" true)
  write_handoff call caller p (label trust.0) trust.1

unfoldable pub create_handoff : Call → Caller → Payload → SourceTrust → Exec Store Created
unfolding validate_handoff_payload insert_handoff
create_handoff call caller p requested = do
  gate (require_bound_caller call.settings call.conn caller "create_handoff")
  raise_if (caller != Caller.claude_ai) (not_a_dispatcher caller)
  clamp_and_write call caller p requested
