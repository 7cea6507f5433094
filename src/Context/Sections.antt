-- ===== src/Context/Sections.antt =====
-- The tables of the context sections, with the two triggers that bound their total size.
use Prim.Native.String.{len}
use bridge_db.Prelude.{
  ℕ, suc, ◌+◌, String, Bool, ◌&&◌, Option, none, some, List, ltb, find, select, total_of, ◌==◌,
  ◌!=◌, string_eq, nat_eq,
}
use bridge_db.Models.{Caller, SourceTrust, agent}
use bridge_db.Conflicts.{Ledger}
use bridge_db.ContentIndex.{Entry}
use bridge_db.Session.{Session}

-- context_sections; the primary key is section_name
pub record Section : Type 0 where
  pub section_name : String
  pub owner : Caller
  pub content : String
  pub updated_at : String
  pub source_trust : SourceTrust
  pub version : ℕ

-- context_section_export_state; the primary key is section_name
pub record ExportBase : Type 0 where
  pub section_name : String
  pub exported_version : ℕ
  pub exported_content_sha256 : String

-- bridge_import_receipts; imported_source_trust is 'ingested'
pub record Import : Type 0 where
  pub principal : String
  pub section_name : String
  pub previous_version : Option ℕ
  pub imported_version : ℕ
  pub previous_content_sha256 : Option String
  pub imported_content_sha256 : String
  pub fallback_path_sha256 : String
  pub fallback_file_sha256 : String

pub record Tables : Type 0 where
  pub sections : List Section
  pub exports : List ExportBase
  pub imports : List Import
  pub conflicts : Ledger
  pub index : List Entry

abbrev pub Store : Type 0
Store = Session Tables

abbrev pub section_max_bytes : ℕ
section_max_bytes = 262144

abbrev pub total_max_bytes : ℕ
total_max_bytes = 1048576

-- WHERE section_name = ?
abbrev pub named : String → Section → Bool
named name s = s.section_name == name

-- `_section_row`
abbrev pub section_row : String → List Section → Option Section
section_row name = find (named name)

-- SUM(length(CAST(content AS BLOB)))
abbrev pub content_bytes : Section → ℕ
content_bytes s = len s.content

abbrev pub total_bytes : List Section → ℕ
total_bytes = total_of content_bytes

-- trg_context_total_bytes_insert: whether the INSERT is aborted
unfoldable pub insert_aborts : String → List Section → Bool
insert_aborts content sections = ltb total_max_bytes (total_bytes sections + len content)

-- … WHERE section_name != OLD.section_name, with the new content
abbrev pub others_with : String → String → List Section → ℕ
others_with name content sections =
    total_bytes (select (λ s. s.section_name != name) sections) + len content

-- trg_context_total_bytes_update: whether the UPDATE of a row is aborted. A shrinking update of
-- tables that are over the limit passes.
unfoldable pub update_aborts : String → String → List Section → Bool
update_aborts name content sections =
    ltb total_max_bytes (others_with name content sections)
    && ltb (total_bytes sections) (others_with name content sections)

-- COALESCE(?, 'agent')
abbrev pub or_agent : Option SourceTrust → SourceTrust
or_agent none = agent
or_agent (some t) = t

abbrev pub rewrite_row : String → Option SourceTrust → String → Section → Section
rewrite_row content trust now s = record s {
  content = content;
  updated_at = now;
  source_trust = or_agent trust;
  version = suc s.version;
}

abbrev pub new_section : String → Caller → String → Option SourceTrust → String → Section
new_section name owner content trust now = record {
  section_name = name;
  owner = owner;
  content = content;
  updated_at = now;
  source_trust = or_agent trust;
  version = 1;
}
