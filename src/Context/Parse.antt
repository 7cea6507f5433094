-- ===== src/Context/Parse.antt =====
-- `parse_owned_sections` of src/bridge_db/tools/context.py, with the legacy form of a document that
-- has no markers.
use Prim.Native.String.{String}
use bridge_db.Prelude.{
  ℕ, Bool, ◌&&◌, ◌||◌, Option, none, some, List, [], ◌∷◌, map, exists, codes, strip, strip_text,
  is_some, ◌==◌, nat_eq, string_eq, list_eq, option_map, if◌then◌else◌,
}
use bridge_db.Errors.{duplicate_section}
use bridge_db.Exec.{Result, ok, err}
use bridge_db.ContentIndex.{join_lines}
use bridge_db.Context.Markers.{
  State, Parsed, drop_prefix, starts_with, start_prefix, end_prefix, section_heading_map,
  is_markdown_boundary_line, has_section, open_section, keep_line, read_lines, no_sections,
  parse_marked_owned_sections,
}

-- _LEGACY_DOCUMENT_BOUNDARY_HEADINGS
abbrev pub legacy_boundary_headings : List String
legacy_boundary_headings =
    "Pending Handoffs" ∷ "Claude Code State Snapshot" ∷ "Recent Claude Code Activity"
    ∷ "Codex State Snapshot" ∷ "Recent Codex Activity" ∷ "Recent Notion OS Activity"
    ∷ "Recent Personal Ops Activity" ∷ "Pinned Ledger" ∷ []

-- The text of a heading line: line[3:].strip()
abbrev pub heading_of : String → Option (List ℕ)
heading_of line = option_map (λ rest. strip (codes rest)) (drop_prefix "## " line)

-- _SECTION_HEADING_MAP.get(heading)
abbrev pub heading_section : List (String × String) → List ℕ → Option String
heading_section [] heading = none
heading_section ((text, name) ∷ rest) heading =
    let later = heading_section rest heading in if codes text == heading then some name else later

abbrev pub is_legacy_boundary : List ℕ → Bool
is_legacy_boundary heading = exists (λ text. codes text == heading) legacy_boundary_headings

abbrev pub legacy_heading : String → State → List ℕ → Option String → Result State
legacy_heading line s heading (some name) =
    if has_section name s.parsed then err (duplicate_section name) else ok (open_section name s)
legacy_heading line s heading none = ok (
    if is_legacy_boundary heading
    then record s { current_section = none }
    else keep_line line s s.current_section)

abbrev pub legacy_line : String → State → Option (List ℕ) → Result State
legacy_line line s none = ok (keep_line line s s.current_section)
legacy_line line s (some heading) =
    legacy_heading line s heading (heading_section section_heading_map heading)

unfoldable pub read_legacy : String → State → Result State
unfolding drop_prefix is_markdown_boundary_line
read_legacy line s =
    if is_some s.current_section && is_markdown_boundary_line line
    then ok s
    else legacy_line line s (heading_of line)

abbrev pub parsed_of : Result State → Result Parsed
parsed_of (err e) = err e
parsed_of (ok s) = ok s.parsed

-- `_parse_legacy_owned_sections`
unfoldable pub parse_legacy_owned_sections : List String → Result Parsed
unfolding read_lines read_legacy
parse_legacy_owned_sections lines = parsed_of (read_lines read_legacy lines no_sections)

-- str.strip("\n")
unfoldable pub strip_newlines : String → String
unfolding strip_text
strip_newlines = strip_text (λ c. c == 10)

abbrev pub has_markers : List String → Bool
has_markers = exists (λ line. starts_with start_prefix line || starts_with end_prefix line)

abbrev pub bodies : Result Parsed → Result (List (String × String))
bodies (err e) = err e
bodies (ok parsed) = ok (map (λ p. (p.0, strip_newlines (join_lines p.1))) parsed)

-- `parse_owned_sections`
unfoldable pub parse_owned_sections : List String → Result (List (String × String))
unfolding parse_marked_owned_sections parse_legacy_owned_sections starts_with strip_newlines
parse_owned_sections lines = bodies (
    if has_markers lines
    then parse_marked_owned_sections lines
    else parse_legacy_owned_sections lines)
