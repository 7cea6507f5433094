-- ===== src/Context/Update.antt =====
-- `update_section`, `get_section` and `get_all_sections` of src/bridge_db/tools/context.py.
use bridge_db.Prelude.{
  ℕ, String, ◌<>◌, Bool, true, false, Option, none, some, List, [], ◌∷◌, ◌==◌, ◌!=◌, string_eq,
  if◌then◌else◌,
}
use Prim.Native.Nat.{Ordering}
use Prim.Native.String.{compare}
use bridge_db.Models.{Caller, SourceTrust, agent, caller_eq, caller_name, section_owners}
use bridge_db.Platform.{Platform}
use bridge_db.Errors.{unknown_section, not_the_steward, section_not_found}
use bridge_db.Exec.{Exec, pure, raise, ◌>>=◌, ◌>>◌}
use bridge_db.Auth.{
  Settings, Connection, require_caller, require_bound_caller, clamp_source_trust, get_principal,
  name_of,
}
use bridge_db.Session.{gate, audit, get_tables, put_tables}
use bridge_db.Context.Sections.{Section, Tables, Store, section_row}
use bridge_db.Context.Upsert.{Write, Outcome, written, refused, upsert_section}

-- SECTION_OWNERS.get(section_name)
unfoldable pub owner_of : String → List (String × Caller) → Option Caller
owner_of name [] = none
owner_of name ((n, owner) ∷ rest) =
    let later = owner_of name rest in if n == name then some owner else later

-- The arguments of the tool, and what others commit while it runs: between the SELECT and the
-- INSERT of a new section, and between the commit and the SELECT of the row that is answered.
pub record Request : Type 0 where
  pub section_name : String
  pub content : String
  pub source_trust : Option SourceTrust
  pub if_match_updated_at : Option String
  pub if_match_version : Option ℕ
  pub between : Tables → Tables
  pub afterwards : Tables → Tables

pub data Answer : Type 0 where
  conflict : String → ℕ → Option Section → Answer
  updated : Option Section → Bool → Answer  -- the row read again, and whether the label was clamped

module _ (pf : Platform) (env : Settings) (conn : Connection) (now : String) (caller : Caller)
    (r : Request) where
  abbrev pub write_of : Caller → SourceTrust → Write
  write_of owner trust = record {
    section_name = r.section_name;
    owner = owner;
    content = r.content;
    source_trust = some trust;
    attempted_by = caller_name caller;
    operation = "update_section";
    principal = name_of (get_principal env conn);
    receipt_surface = "context_section";
    if_match_updated_at = r.if_match_updated_at;
    if_match_version = r.if_match_version;
    between = r.between;
  }

  abbrev pub answer : Bool → Outcome → Exec Store Answer
  answer clamped (refused reason receipt current) = pure (conflict reason receipt current)
  answer clamped written = do
    t ← get_tables
    put_tables (r.afterwards t)
    pure (updated (section_row r.section_name (r.afterwards t).sections) clamped)

  abbrev pub label : Option SourceTrust → SourceTrust
  label none = agent
  label (some t) = t

  abbrev pub write : Caller → SourceTrust → Bool → Exec Store Answer
  write owner trust clamped = upsert_section pf now (write_of owner trust) >>= answer clamped

  abbrev pub as_steward : Caller → Exec Store Answer
  as_steward owner = do
    trust ← gate (clamp_source_trust env r.source_trust caller "update_section" true)
    write owner (label trust.0) trust.1

  abbrev pub refuse_steward : Caller → Exec Store Answer
  refuse_steward owner = do
    audit "update_section" (some (caller_name caller)) none false (
        some (
          "section="
          <> r.section_name
          <> " decision=refused reason=section_owner_mismatch owner="
          <> caller_name owner))
    raise (not_the_steward r.section_name caller)

  abbrev pub owned : Option Caller → Exec Store Answer
  owned none = raise (unknown_section r.section_name)
  owned (some owner) = do
    gate (require_bound_caller env conn caller "update_section")
    if caller != owner then refuse_steward owner else as_steward owner

  unfoldable pub update_section : Exec Store Answer
  update_section = do
    gate (require_caller env conn caller "update_section")
    owned (owner_of r.section_name section_owners)

abbrev row_or_error : String → Option Section → Exec Store Section
row_or_error name none = raise (section_not_found name)
row_or_error name (some s) = pure s

-- The row that `get_section` shows.
unfoldable pub get_section : String → Exec Store Section
get_section name = do t ← get_tables; row_or_error name (section_row name t.sections)

-- ORDER BY section_name
unfoldable pub insert_by_name : Section → List Section → List Section
insert_by_name s [] = s ∷ []
insert_by_name s (k ∷ ks) =
    let later = k ∷ insert_by_name s ks in
    elim (compare s.section_name k.section_name) [ Ordering.gt ↦ later | _ ↦ s ∷ k ∷ ks ]

unfoldable pub get_all_sections : List Section → List Section
unfolding insert_by_name
get_all_sections [] = []
get_all_sections (s ∷ ss) = insert_by_name s (get_all_sections ss)
