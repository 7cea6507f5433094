-- ===== src/Context/Sync.antt =====
-- `sync_owned_sections_from_file` and `sync_from_file` of src/bridge_db/tools/context.py. The file
-- is an argument: its text, the lines of its text, and its resolved path. What the batch stages is
-- given back where the code rolls back, and stays staged where it only raises.
pub mod Staging
pub mod Oversized
pub mod Unchanged
use bridge_db.Prelude.{
  ℕ, suc, String, ◌<>◌, Bool, true, false, ◌&&◌, Option, none, some, List, [], ◌∷◌, ◌++◌, find, map,
  ◌==◌, ◌!=◌, nat_eq, string_eq, if◌then◌else◌,
}
use bridge_db.Models.{Principal, Caller, ingested, principal_name, section_owners}
use bridge_db.Json.{Fields, field, end, string}
use bridge_db.Platform.{Platform}
use bridge_db.Errors.{bridge_file_missing}
use bridge_db.Exec.{Exec, Result, ok, err, pure, raise, lift, ◌>>=◌, ◌>>◌}
use bridge_db.Capacity.{require_utf8_bytes}
use bridge_db.Auth.{Settings, Connection, require_bound_principal}
use bridge_db.Session.{gate, audit, get_tables, put_tables}
use bridge_db.Context.Sections.{
  Section, ExportBase, Import, Tables, Store, section_row, section_max_bytes,
}
use bridge_db.Context.Upsert.{
  Write, Outcome, written, refused, record_section_conflict, upsert_section,
}
use bridge_db.Context.Parse.{strip_newlines, parse_owned_sections}

pub record BridgeFile : Type 0 where
  pub content : String
  pub lines : List String  -- content.splitlines()
  pub resolved_path : String

pub record Refused : Type 0 where
  pub section_name : String
  pub receipt_id : ℕ
  pub reason : String
  pub current : Option Section

pub record Report : Type 0 where
  pub sections_synced : List String
  pub unchanged : List String
  pub demoted : List String
  pub conflicts : List Refused
  pub legacy_imports : List String

abbrev pub empty_report : Report
empty_report = record {
  sections_synced = [];
  unchanged = [];
  demoted = [];
  conflicts = [];
  legacy_imports = [];
}

-- ",".join
unfoldable pub comma_separated : List String → String
comma_separated [] = ""
comma_separated (part ∷ []) = part
comma_separated (part ∷ next ∷ rest) = part <> "," <> comma_separated (next ∷ rest)

abbrev pub export_base : String → List ExportBase → Option ExportBase
export_base name = find (λ e. e.section_name == name)

abbrev pub body_of : String → List (String × String) → Option String
body_of name [] = none
body_of name ((n, body) ∷ rest) =
    let later = body_of name rest in if n == name then some body else later

-- `except ToolError: await db.rollback(); raise`. The other errors of the call roll back inside it.
abbrev pub or_rollback : {A : Type 0} → Tables → Result A × Store → Result A × Store
or_rollback before (ok a, s) = (ok a, s)
or_rollback before (err e, s) = (err e, record s { tables = before })

abbrev pub rolling_back : {A : Type 0} → Tables → Exec Store A → Exec Store A
rolling_back before m s = or_rollback before (m s)

abbrev pub version_before : Option Section → Option ℕ
version_before none = none
version_before (some s) = some s.version

abbrev pub version_after : Option Section → ℕ
version_after none = 1
version_after (some s) = suc s.version

module _ (pf : Platform) (now principal : String) (file : BridgeFile) (before : Tables) where
  -- No commit of others is modelled between the two SELECTs of a section and its INSERT.
  abbrev pub file_write : String → String → String → Option ℕ → Write
  file_write name content attempted_by version = record {
    section_name = name;
    owner = Caller.claude_ai;
    content = content;
    source_trust = some ingested;
    attempted_by = attempted_by;
    operation = "sync_from_file";
    principal = some principal;
    receipt_surface = "markdown_sync";
    if_match_updated_at = none;
    if_match_version = version;
    between = λ t. t;
  }

  abbrev hash_before : Option Section → Option String
  hash_before none = none
  hash_before (some s) = some (pf.sha256 s.content)

  abbrev pub import_of : String → String → Option Section → Import
  import_of name content current = record {
    principal = principal;
    section_name = name;
    previous_version = version_before current;
    imported_version = version_after current;
    previous_content_sha256 = hash_before current;
    imported_content_sha256 = pf.sha256 content;
    fallback_path_sha256 = pf.sha256 file.resolved_path;
    fallback_file_sha256 = pf.sha256 file.content;
  }

  abbrev pub add_conflict : Report → Refused → Report
  add_conflict r c = record r { conflicts = r.conflicts ++ c ∷ [] }

  -- After the upsert: the import's receipt, or the refusal on the report.
  abbrev pub settle_import : String → String → Option Section → Report → Outcome → Exec Store Report
  settle_import name content current r (refused reason receipt now_there) = pure (
      add_conflict r (record {
        section_name = name;
        receipt_id = receipt;
        reason = reason;
        current = now_there;
      }))
  settle_import name content current r written = do
    t ← get_tables
    put_tables (record t { imports = t.imports ++ import_of name content current ∷ [] })
    pure (record r {
      demoted = r.demoted ++ name ∷ [];
      sections_synced = r.sections_synced ++ name ∷ [];
    })

  abbrev pub staged_upsert : String → String → Option Section → Exec Store Outcome
  staged_upsert name content current =
      rolling_back before
        (upsert_section pf now (file_write name content principal (version_before current)))

  abbrev pub import_section : String → String → Option Section → Report → Exec Store Report
  import_section name content current r =
      staged_upsert name content current >>= settle_import name content current r

  -- A file of unknown or stale ancestry: the receipt joins the batch.
  abbrev pub refuse_file :
      String → String → String → Option ℕ → Fields → Section → Report → Exec Store Report
  refuse_file name content reason stale detail current r = do
    receipt ←
        record_section_conflict pf now (file_write name content "sync_from_file" none) reason stale
          none detail
    pure (
        add_conflict r (record {
          section_name = name;
          receipt_id = receipt;
          reason = reason;
          current = some current;
        }))

  abbrev pub is_exported : Section → ExportBase → Bool
  is_exported s e =
      s.version == e.exported_version
      && pf.sha256 (strip_newlines s.content) == e.exported_content_sha256

  abbrev pub against_base :
      String → String → Section → Report → Option ExportBase → Exec Store Report
  against_base name content s r none =
      refuse_file name content "missing_export_base" none
        (field "decision" (string "refused_unknown_file_ancestry") end) s
        (record r { legacy_imports = r.legacy_imports ++ name ∷ [] })
  against_base name content s r (some e) =
      if is_exported s e
      then import_section name content (some s) r
      else refuse_file name content "stale_export_base" (some e.exported_version)
          (field "exported_content_sha256" (string e.exported_content_sha256) end) s r

  abbrev pub known_or_new : String → String → Report → Option Section → Exec Store Report
  known_or_new name content r none = import_section name content none r
  known_or_new name content r (some s) = do
    t ← get_tables
    against_base name content s r (export_base name t.exports)

  abbrev pub is_unchanged : String → Option Section → Bool
  is_unchanged content none = false
  is_unchanged content (some s) = strip_newlines s.content == strip_newlines content

  -- `_validate_context_payload` comes before the import, outside its rollback.
  abbrev pub changed_section : String → String → Report → Option Section → Exec Store Report
  changed_section name content r current =
      lift
        (require_utf8_bytes (some content) section_max_bytes "context.section_utf8_bytes_exceeded")
      >> known_or_new name content r current

  abbrev pub sync_body : String → String → Report → Option Section → Exec Store Report
  sync_body name content r current =
      if is_unchanged content current
      then pure (record r { unchanged = r.unchanged ++ name ∷ [] })
      else changed_section name content r current

  abbrev pub sync_section : String → Option String → Report → Exec Store Report
  sync_section name none r = pure r
  sync_section name (some content) r = do
    t ← get_tables
    sync_body name content r (section_row name t.sections)

  -- The loop over SECTION_OWNERS.
  unfoldable pub sync_sections : List (String × String) → List String → Report → Exec Store Report
  unfolding upsert_section
  sync_sections parsed [] r = pure r
  sync_sections parsed (name ∷ names) r =
      sync_section name (body_of name parsed) r >>= sync_sections parsed names

  abbrev pub report_demoted : Report → List String → Exec Store Report
  report_demoted r [] = pure r
  report_demoted r (name ∷ names) = do
    audit "sync_from_file.demoted" (some principal) none true
        (some ("sections=" <> comma_separated r.demoted <> " label=ingested (file channel)"))
    pure r

  abbrev pub finish : Report → Exec Store Report
  finish r = report_demoted r r.demoted

  abbrev pub synced_names : List String
  synced_names = map (λ o. o.0) section_owners

  abbrev pub sync_parsed : List (String × String) → Exec Store Report
  sync_parsed parsed = sync_sections parsed synced_names empty_report >>= finish

module _ (pf : Platform) (now principal : String) where
  abbrev pub sync_batch : BridgeFile → List (String × String) → Exec Store Report
  sync_batch file parsed = do before ← get_tables; sync_parsed pf now principal file before parsed

  abbrev pub sync_file : Option BridgeFile → Exec Store Report
  sync_file none = raise bridge_file_missing
  sync_file (some file) = lift (parse_owned_sections file.lines) >>= sync_batch file

  unfoldable pub sync_owned_sections_from_file : Option BridgeFile → Exec Store Report
  unfolding parse_owned_sections sync_sections
  sync_owned_sections_from_file file = sync_file file

module _ (pf : Platform) (env : Settings) (conn : Connection) (now : String) where
  abbrev pub sync_as : Option BridgeFile → Principal → Exec Store Report
  sync_as file p = sync_owned_sections_from_file pf now (principal_name p) file

  unfoldable pub sync_from_file : Option BridgeFile → Exec Store Report
  sync_from_file file = gate (require_bound_principal env conn "sync_from_file") >>= sync_as file
