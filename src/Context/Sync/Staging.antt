-- ===== src/Context/Sync/Staging.antt =====
-- What a synchronisation leaves staged: a run of the protocol from the tables that it began with,
-- whatever it rolls back.
use bridge_db.Prelude.{
  ℕ, String, ◌≢◌, Bool, true, false, Option, none, some, List, [], ◌∷◌, if◌then◌else◌,
}
use bridge_db.Models.{operator, ingested, principal_name}
use bridge_db.Json.{Fields}
use bridge_db.Platform.{Platform}
use bridge_db.Exec.{Exec, Result, ok, err, ◌>>=◌, bind_result}
use bridge_db.Capacity.{require_utf8_bytes}
use bridge_db.Auth.{Settings, Connection, require_bound_principal}
use bridge_db.Session.{gate}
use bridge_db.Session.Runs.{Runs, gated, lifted, sequence}
use bridge_db.Context.Sections.{Section, ExportBase, Tables, Store, section_row, section_max_bytes}
use bridge_db.Context.Upsert.{Outcome, written, refused, upsert_section}
use bridge_db.Context.Parse.{parse_owned_sections}
use bridge_db.Context.Protocol.{Run, Step, start, append_run, commits}
use bridge_db.Context.Refinement.{upsert_section-Runs, record_section_conflict-Runs}
use bridge_db.Context.Sync.{
  BridgeFile, Report, or_rollback, rolling_back, file_write, import_of, settle_import,
  staged_upsert, version_before, import_section, refuse_file, is_exported, against_base,
  export_base, known_or_new, is_unchanged, sync_body, sync_section, body_of, sync_sections,
  report_demoted, finish, sync_parsed, sync_batch, sync_file, synced_names, empty_report,
  sync_owned_sections_from_file, sync_as, sync_from_file,
}

module _ (before : Tables) {A : Type 0} where
  -- the tables stay reachable from `before`
  abbrev From : Exec Store A → Type 0
  From m = (s : Store) → Run before s.tables → Run before (m s).1.tables

  continued : (m : Exec Store A) → Runs commits m → From m
  continued m r s p = append_run p (r s)

  settled :
      (r : Result A) (s : Store)
      → Run before s.tables
      → Run before (or_rollback before (r, s)).1.tables
  settled (ok a) s p = p
  settled (err e) s p = start

  rolled_back : (m : Exec Store A) → From m → From (rolling_back before m)
  rolled_back m f s p = settled (m s).0 (m s).1 (f s p)

  branch : (b : Bool) (m k : Exec Store A) → From m → From k → From (if b then m else k)
  branch true m k f g = f
  branch false m k f g = g

module _ (before : Tables) {A B : Type 0} where
  bound :
      (r : Result A) (f : A → Exec Store B) (s : Store)
      → Run before s.tables
      → ((a : A) → From before (f a))
      → Run before (bind_result r f s).1.tables
  bound (ok a) f s p g = g a s p
  bound (err e) f s p g = p

  followed :
      (m : Exec Store A) (f : A → Exec Store B)
      → From before m
      → ((a : A) → From before (f a))
      → From before (m >>= f)
  followed m f p g s q = bound (m s).0 f (m s).1 (p s q) g

module _ (pf : Platform) (now principal : String) (file : BridgeFile) (before : Tables) where
  settle_import-From :
      (name content : String) (current : Option Section) (r : Report) (o : Outcome)
      → From before (settle_import pf now principal file before name content current r o)
  settle_import-From name content current r (refused reason receipt there) s p = p
  settle_import-From name content current r written s p =
      Run.after p
        (Step.import_receipt (import_of pf now principal file before name content current))

  ingested_label : some ingested ≢ some operator
  ingested_label e = cc

  import_section-From :
      (name content : String) (current : Option Section) (r : Report)
      → From before (import_section pf now principal file before name content current r)
  import_section-From name content current r =
      let w =
        file_write pf now principal file before name content principal (version_before current) in
      followed before (staged_upsert pf now principal file before name content current)
        (settle_import pf now principal file before name content current r)
        (rolled_back before (upsert_section pf now w) (
          continued before (upsert_section pf now w)
            (upsert_section-Runs pf now w ingested_label (λ _ t. start))))
        (settle_import-From name content current r)

  refuse_file-From :
      (name content reason : String) (stale : Option ℕ) (detail : Fields) (s : Section) (r : Report)
      → From before (refuse_file pf now principal file before name content reason stale detail s r)
  refuse_file-From name content reason stale detail current r =
      let w = file_write pf now principal file before name content "sync_from_file" none in
      continued before
        (refuse_file pf now principal file before name content reason stale detail current r)
        (sequence commits _ _ (record_section_conflict-Runs pf now w reason stale none detail)
          (λ a s. start))

  against_base-From :
      (name content : String) (s : Section) (r : Report) (o : Option ExportBase)
      → From before (against_base pf now principal file before name content s r o)
  against_base-From name content s r none = refuse_file-From name content _ _ _ s _
  against_base-From name content s r (some e) =
      branch before (is_exported pf now principal file before s e) _ _
        (import_section-From name content (some s) r) (refuse_file-From name content _ _ _ s r)

  known_or_new-From :
      (name content : String) (r : Report) (o : Option Section)
      → From before (known_or_new pf now principal file before name content r o)
  known_or_new-From name content r none s p = import_section-From name content none r s p
  known_or_new-From name content r (some current) s p =
      against_base-From name content current r (export_base name s.tables.exports) s p

  sync_body-From :
      (name content : String) (r : Report) (o : Option Section)
      → From before (sync_body pf now principal file before name content r o)
  sync_body-From name content r o =
      branch before (is_unchanged pf now principal file before content o) _ _ (λ s p. p)
        (λ s p.
          bound before
            (require_utf8_bytes (some content) section_max_bytes
              "context.section_utf8_bytes_exceeded")
            _ s p (λ _. known_or_new-From name content r o))

  sync_section-From :
      (name : String) (o : Option String) (r : Report)
      → From before (sync_section pf now principal file before name o r)
  sync_section-From name none r s p = p
  sync_section-From name (some content) r s p =
      sync_body-From name content r (section_row name s.tables.sections) s p

  sync_sections-From :
      (parsed : List (String × String)) (names : List String) (r : Report)
      → From before (sync_sections pf now principal file before parsed names r)
  unfolding sync_sections
  sync_sections-From parsed [] r s p = p
  sync_sections-From parsed (name ∷ names) r s p =
      followed before (sync_section pf now principal file before name (body_of name parsed) r)
        (sync_sections pf now principal file before parsed names)
        (sync_section-From name (body_of name parsed) r) (sync_sections-From parsed names) s p

  finish-From :
      (r : Report) (names : List String)
      → From before (report_demoted pf now principal file before r names)
  finish-From r [] s p = p
  finish-From r (name ∷ names) s p = p

  sync_parsed-From :
      (parsed : List (String × String))
      → From before (sync_parsed pf now principal file before parsed)
  sync_parsed-From parsed =
      followed before
        (sync_sections pf now principal file before parsed
          (synced_names pf now principal file before) empty_report)
        (finish pf now principal file before) (sync_sections-From parsed _ empty_report)
        (λ r. finish-From r r.demoted)

module _ (pf : Platform) (now principal : String) where
  sync_file-Runs : (file : Option BridgeFile) → Runs commits (sync_file pf now principal file)
  sync_file-Runs none s = start
  sync_file-Runs (some file) s =
      lifted commits (parse_owned_sections file.lines) (sync_batch pf now principal file) s
        (λ parsed _. sync_parsed-From pf now principal file s.tables parsed s start)

  sync_owned-Runs :
      (file : Option BridgeFile)
      → Runs commits (sync_owned_sections_from_file pf now principal file)
  unfolding sync_owned_sections_from_file
  sync_owned-Runs = sync_file-Runs

-- Whatever the file says, errors and rollbacks included, what `sync_from_file` leaves in the
-- connection's tables is reached by steps of the protocol: compare-and-swaps and insertions within
-- the byte limit under a label other than "operator", and receipts.
pub sync_from_file-Runs :
    (pf : Platform) (env : Settings) (conn : Connection) (now : String) (file : Option BridgeFile)
    (s : Store)
    → Run s.tables (sync_from_file pf env conn now file s).1.tables
unfolding sync_from_file
sync_from_file-Runs pf env conn now file =
    sequence commits (gate (require_bound_principal env conn "sync_from_file"))
      (sync_as pf env conn now file)
      (gated commits (require_bound_principal env conn "sync_from_file"))
      (λ p. sync_owned-Runs pf now (principal_name p) file)
