-- ===== src/Context/Markers.antt =====
-- The owned-section markers of src/bridge_db/tools/context.py. A document is the list of its lines
-- (`splitlines`).
pub mod Render
pub mod Framing
pub mod RoundTrip
use Prim.Native.String.{String}
use Prim.Native.Char.{code}
use bridge_db.Prelude.{
  ℕ, Bool, true, false, ◌&&◌, ◌||◌, not, Option, none, some, List, [], ◌∷◌, ◌++◌, ◌<>◌, map, exists,
  contains, codes, strip, is_none, is_some, update_where, ◌==◌, ◌!=◌, nat_eq, string_eq, list_eq,
  option_eq, option_map, if◌then◌else◌,
}
use bridge_db.Errors.{
  ToolError, malformed_marker, nested_marker, unknown_marker, mismatched_end, unclosed_marker,
  duplicate_section,
}
use bridge_db.Exec.{Result, ok, err}
use bridge_db.ContentIndex.{join_lines}

-- line[len(prefix):] where line.startswith(prefix)
unfoldable pub drop_prefix : String → String → Option String
drop_prefix String.[] line = some line
drop_prefix (String.◌∷◌ p prefix) String.[] = none
drop_prefix (String.◌∷◌ p prefix) (String.◌∷◌ c line) =
    let rest = drop_prefix prefix line in if code p == code c then rest else none

-- text[:-len(suffix)] where text.endswith(suffix)
unfoldable pub drop_suffix : String → String → Option String
drop_suffix suffix String.[] = if suffix == "" then some "" else none
drop_suffix suffix (String.◌∷◌ c text) =
    let rest = option_map (λ t. String.◌∷◌ c t) (drop_suffix suffix text) in
    if String.◌∷◌ c text == suffix then some "" else rest

unfoldable pub starts_with : String → String → Bool
unfolding drop_prefix
starts_with prefix line = is_some (drop_prefix prefix line)

abbrev pub start_prefix : String
start_prefix = "<!-- bridge-db:owned-section:start:"

abbrev pub end_prefix : String
end_prefix = "<!-- bridge-db:owned-section:end:"

abbrev pub marker_suffix : String
marker_suffix = " -->"

abbrev pub boundary_prefix : String
boundary_prefix = "> **Stored data boundary:** source_trust=`"

-- _SECTION_HEADING_MAP
abbrev pub section_heading_map : List (String × String)
section_heading_map =
    ("Career & Professional Target", "career")
    ∷ ("Speaking Engagements", "speaking")
    ∷ ("Active Research Themes", "research")
    ∷ ("Claude.ai Capabilities Summary", "capabilities")
    ∷ []

abbrev pub owned_sections : List String
owned_sections = map (λ p. p.1) section_heading_map

unfoldable pub is_markdown_boundary_line : String → Bool
unfolding starts_with
is_markdown_boundary_line line = starts_with boundary_prefix line

-- `_marker_section`. The suffix cannot reach into the prefix, which ends in a colon.
abbrev pub known_section : String → Result (Option String)
known_section name =
    if contains owned_sections name then ok (some name) else err (unknown_marker name)

abbrev pub marked_name : Option String → Result (Option String)
marked_name none = err malformed_marker
marked_name (some name) = known_section name

abbrev pub after_prefix : Option String → Result (Option String)
after_prefix none = ok none
after_prefix (some rest) = marked_name (drop_suffix marker_suffix rest)

unfoldable pub marker_section : String → String → Result (Option String)
unfolding drop_prefix drop_suffix
marker_section line prefix = after_prefix (drop_prefix prefix line)

-- The dict in the order of its insertions: a section's name and its lines.
abbrev pub Parsed : Type 0
Parsed = List (String × List String)

pub record State : Type 0 where
  pub parsed : Parsed
  pub current_section : Option String

abbrev pub has_section : String → Parsed → Bool
has_section name = exists (λ p. p.0 == name)

-- parsed[name].append(line)
abbrev pub append_line : String → String → Parsed → Parsed
append_line name line = update_where (λ p. p.0 == name) (λ p. (p.0, p.1 ++ line ∷ []))

abbrev pub open_section : String → State → State
open_section name s = record { parsed = s.parsed ++ (name, []) ∷ []; current_section = some name }

abbrev pub keep_line : String → State → Option String → State
keep_line line s none = s
keep_line line s (some name) = record s { parsed = append_line name line s.parsed }

abbrev pub begin_section : String → State → Result State
begin_section name s =
    if is_some s.current_section
    then err nested_marker
    else if has_section name s.parsed
    then err (duplicate_section name)
    else ok (open_section name s)

abbrev pub end_section : String → State → Result State
end_section name s =
    if s.current_section != some name
    then err (mismatched_end name)
    else ok (record s { current_section = none })

-- The line's start marker, its end marker, or neither.
abbrev pub marked_line : String → State → Option String → Option String → Result State
marked_line line s (some name) ends = begin_section name s
marked_line line s none (some name) = end_section name s
marked_line line s none none =
    ok (if is_markdown_boundary_line line then s else keep_line line s s.current_section)

abbrev pub with_end : String → State → Option String → Result (Option String) → Result State
with_end line s starts (err e) = err e
with_end line s starts (ok ends) = marked_line line s starts ends

abbrev pub with_markers :
    String → State → Result (Option String) → Result (Option String) → Result State
with_markers line s (err e) ends = err e
with_markers line s (ok starts) ends = with_end line s starts ends

unfoldable pub read_marked : String → State → Result State
unfolding marker_section is_markdown_boundary_line
read_marked line s =
    with_markers line s (marker_section line start_prefix) (marker_section line end_prefix)

abbrev pub closed : State → Result Parsed
closed s = elim s.current_section [ none ↦ ok s.parsed | some name ↦ err (unclosed_marker name) ]

abbrev pub then_read : Result State → (State → Result State) → Result State
then_read (err e) rest = err e
then_read (ok s) rest = rest s

-- The loop over the lines.
unfoldable pub read_lines : (String → State → Result State) → List String → State → Result State
read_lines read [] s = ok s
read_lines read (line ∷ lines) s = then_read (read line s) (read_lines read lines)

abbrev pub then_close : Result State → Result Parsed
then_close (err e) = err e
then_close (ok s) = closed s

abbrev pub no_sections : State
no_sections = record { parsed = []; current_section = none }

-- `_parse_marked_owned_sections`
unfoldable pub parse_marked_owned_sections : List String → Result Parsed
unfolding read_lines read_marked
parse_marked_owned_sections lines = then_close (read_lines read_marked lines no_sections)
