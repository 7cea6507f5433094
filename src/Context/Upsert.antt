-- ===== src/Context/Upsert.antt =====
-- `_upsert_section` and `_record_section_conflict` of src/bridge_db/tools/context.py: the
-- compare-and-swap of a section. The receipt of a refused write joins its transaction.
use bridge_db.Prelude.{
  ℕ, String, Bool, true, ◌&&◌, ◌||◌, Option, none, some, [], ◌∷◌, ◌++◌, leb, exists, count_where,
  update_where, is_some, ◌==◌, nat_eq, string_eq, if◌then◌else◌,
}
use bridge_db.Models.{Caller, SourceTrust}
use bridge_db.Json.{Fields, end}
use bridge_db.Platform.{Platform}
use bridge_db.Errors.{context_total_exceeded, integrity_error}
use bridge_db.Exec.{Exec, Result, ok, err, pure, raise, lift, ◌>>=◌, ◌>>◌}
use bridge_db.Capacity.{require_utf8_bytes}
use bridge_db.Conflicts.{Attempt, Ledger, record_write_conflict}
use bridge_db.ContentIndex.{upsert_fts_entry, fts_text_for_section}
use bridge_db.Session.{sometimes, get_tables, put_tables, always_tx}
use bridge_db.Context.Sections.{
  Section, Tables, Store, section_max_bytes, named, section_row, insert_aborts, update_aborts,
  rewrite_row, new_section,
}

-- The arguments of a write, and what others commit between the SELECT and the INSERT of a new
-- section.
pub record Write : Type 0 where
  pub section_name : String
  pub owner : Caller
  pub content : String
  pub source_trust : Option SourceTrust
  pub attempted_by : String
  pub operation : String
  pub principal : Option String
  pub receipt_surface : String
  pub if_match_updated_at : Option String
  pub if_match_version : Option ℕ
  pub between : Tables → Tables

pub data Outcome : Type 0 where
  written : Outcome
  refused : String → ℕ → Option Section → Outcome  -- the reason, the receipt, the current row

abbrev version_of : Option Section → Option ℕ
version_of none = none
version_of (some s) = some s.version

abbrev updated_at_of : Option Section → Option String
updated_at_of none = none
updated_at_of (some s) = some s.updated_at

abbrev trust_of : Option Section → Option SourceTrust
trust_of none = none
trust_of (some s) = some s.source_trust

-- content_sha256
abbrev pub hash_of : Platform → Option Section → Option String
hash_of pf none = none
hash_of pf (some s) = some (pf.sha256 s.content)

abbrev matches_version : Option ℕ → Section → Bool
matches_version none s = true
matches_version (some v) s = s.version == v

abbrev matches_updated_at : Option String → Section → Bool
matches_updated_at none s = true
matches_updated_at (some t) s = s.updated_at == t

module _ (w : Write) where
  -- The conditions of the UPDATE.
  abbrev pub cas : Section → Bool
  cas s =
      named w.section_name s
      && matches_version w.if_match_version s
      && matches_updated_at w.if_match_updated_at s

  abbrev pub has_token : Bool
  has_token = is_some w.if_match_version || is_some w.if_match_updated_at

  abbrev pub index_section : Tables → Tables
  index_section t = record t {
    index =
        upsert_fts_entry "section" w.section_name (fts_text_for_section w.section_name w.content)
          t.index;
  }

module _ (now : String) (w : Write) where
  abbrev pub rewritten : Tables → Tables
  rewritten t = index_section w (record t {
    sections = update_where (cas w) (rewrite_row w.content w.source_trust now) t.sections;
  })

  abbrev pub inserted : Tables → Tables
  inserted t = index_section w (record t {
    sections = t.sections ++ new_section w.section_name w.owner w.content w.source_trust now ∷ [];
  })

module _ (pf : Platform) (now : String) (w : Write) where
  -- The receipt's columns, against the current row.
  abbrev pub conflict_attempt : String → Option ℕ → Option String → Option Section → Attempt
  conflict_attempt reason stale_version stale_updated_at current = record {
    surface = w.receipt_surface;
    target_key = w.section_name;
    operation = w.operation;
    attempted_by = some w.attempted_by;
    principal = w.principal;
    stale_version = stale_version;
    current_version = version_of current;
    stale_updated_at = stale_updated_at;
    current_updated_at = updated_at_of current;
    attempted_source_trust = w.source_trust;
    current_source_trust = trust_of current;
    attempted_content_sha256 = some (pf.sha256 w.content);
    current_content_sha256 = hash_of pf current;
    reason = reason;
  }

  abbrev pub staged_receipt : Store → Option ℕ × Ledger → Result ℕ × Store
  staged_receipt s (none, ledger) = (err integrity_error, s)
  staged_receipt s (some id, ledger) =
      (ok id, record s { tables = record s.tables { conflicts = ledger } })

  -- The ledger's answer for the tables that the connection sees.
  unfoldable pub conflict_of :
      String → Option ℕ → Option String → Fields → Tables → Option ℕ × Ledger
  conflict_of reason stale_version stale_updated_at detail t =
      record_write_conflict pf
        (conflict_attempt reason stale_version stale_updated_at
          (section_row w.section_name t.sections))
        detail now t.conflicts

  -- `_record_section_conflict`
  abbrev pub record_section_conflict : String → Option ℕ → Option String → Fields → Exec Store ℕ
  record_section_conflict reason stale_version stale_updated_at detail s =
      staged_receipt s (conflict_of reason stale_version stale_updated_at detail s.tables)

  abbrev pub answer_refused : String → Tables → ℕ → Exec Store Outcome
  answer_refused reason t receipt =
      pure (refused reason receipt (section_row w.section_name t.sections))

  abbrev pub refuse : String → Option ℕ → Option String → Exec Store Outcome
  refuse reason stale_version stale_updated_at = do
    t ← get_tables
    receipt ← record_section_conflict reason stale_version stale_updated_at end
    answer_refused reason t receipt

  abbrev pub write_rows : Tables → Exec Store Outcome
  write_rows t = do put_tables t; pure written

  abbrev pub reject_stale : Exec Store Outcome
  reject_stale = do
    sometimes "stale_cas_rejection"
    refuse "stale_cas" w.if_match_version w.if_match_updated_at

  abbrev pub swap : Tables → Exec Store Outcome
  swap t = do
    always_tx t (leb (count_where (cas w) t.sections) 1) 4
        "INV-4: section CAS update must match at most one row"
    if count_where (cas w) t.sections == 0 then reject_stale else write_rows (rewritten now w t)

  -- The guarded UPDATE: the trigger runs for a row that matches.
  abbrev pub compare_and_swap : Exec Store Outcome
  compare_and_swap = do
    t ← get_tables
    if exists (cas w) t.sections && update_aborts w.section_name w.content t.sections
        then raise context_total_exceeded
        else swap t

  abbrev pub reject_missing : Exec Store Outcome
  reject_missing = do sometimes "missing_cas_rejection"; refuse "missing_cas" none none

  -- The INSERT: first the trigger, then the primary key, whose error is raised again.
  abbrev pub insert_row : Tables → Exec Store Outcome
  insert_row t =
      if insert_aborts w.content t.sections
      then raise context_total_exceeded
      else if exists (named w.section_name) t.sections
      then raise integrity_error
      else write_rows (inserted now w t)

  abbrev pub insert_late : Tables → Exec Store Outcome
  insert_late t = do put_tables t; insert_row t

  abbrev pub insert_new : Tables → Option Section → Exec Store Outcome
  insert_new t (some existing) = reject_missing
  insert_new t none = insert_late (w.between t)

  abbrev pub without_token : Exec Store Outcome
  without_token = do t ← get_tables; insert_new t (section_row w.section_name t.sections)

  abbrev pub by_token : Exec Store Outcome
  by_token = if has_token w then compare_and_swap else without_token

  unfoldable pub upsert_section : Exec Store Outcome
  unfolding conflict_of
  upsert_section =
      lift (
        require_utf8_bytes (some w.content) section_max_bytes "context.section_utf8_bytes_exceeded")
      >> by_token
