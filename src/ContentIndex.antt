-- ===== src/ContentIndex.antt =====
-- The FTS mirror of src/bridge_db/db.py (table content_index): one row for each source row, with
-- the text that `recall` searches. Tokens and ranking of FTS5 are not modelled.
use bridge_db.Prelude.{
  String, ◌<>◌, Bool, ◌&&◌, not, Option, none, some, List, [], ◌∷◌, ◌++◌, select, ◌==◌, string_eq,
  if◌then◌else◌,
}

pub record Entry : Type 0 where
  pub source_type : String
  pub source_id : String
  pub text : String

abbrev pub is_entry : String → String → Entry → Bool
is_entry source_type source_id e = e.source_type == source_type && e.source_id == source_id

unfoldable pub delete_fts_entry : String → String → List Entry → List Entry
delete_fts_entry source_type source_id = select (λ e. not (is_entry source_type source_id e))

-- Delete and insert.
unfoldable pub upsert_fts_entry : String → String → String → List Entry → List Entry
unfolding delete_fts_entry
upsert_fts_entry source_type source_id text index =
    delete_fts_entry source_type source_id index
    ++ record { source_type = source_type; source_id = source_id; text = text } ∷ []

-- "\n".join
unfoldable pub join_lines : List String → String
join_lines [] = ""
join_lines (part ∷ []) = part
join_lines (part ∷ next ∷ rest) = part <> "\n" <> join_lines (next ∷ rest)

-- `if p: parts.append(p)`
abbrev pub present : Option String → List String → List String
present none rest = rest
present (some p) rest = if p == "" then rest else p ∷ rest

unfoldable pub fts_text_for_section : String → String → String
fts_text_for_section name content = name <> "\n" <> content

unfoldable pub fts_text_for_handoff :
    String → Option String → Option String → Option String → String
unfolding join_lines
fts_text_for_handoff project_name project_path roadmap_file phase =
    join_lines (project_name ∷ present project_path (present roadmap_file (present phase [])))
