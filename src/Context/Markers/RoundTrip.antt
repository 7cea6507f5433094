-- ===== src/Context/Markers/RoundTrip.antt =====
-- The marked form of a document is read back as it was rendered.
use Prim.Native.String.{String}
use mathlib.Core.Path.{subst}
use bridge_db.Prelude.{
  ◌≡◌, refl, sym, ap, inl, inr, true, false, Option, none, some, List, [], ◌∷◌, ◌++◌, contains, All,
  Bool-cases, eq_self, ◌∙◌, ◌==◌, string_eq, option_eq,
}
use mathlib.Core.List.{append-nil, append_assoc}
use bridge_db.Models.{SourceTrust}
use bridge_db.Exec.{Result, ok, err}
use bridge_db.Context.Markers.Framing.{Outside, Inside, Framed, frames, boundary_line}
use bridge_db.Context.Markers.{
  State, Parsed, drop_prefix, starts_with, owned_sections, section_heading_map, marker_section,
  is_markdown_boundary_line, read_marked, read_lines, parse_marked_owned_sections, has_section,
  append_line, then_close, then_read,
}
use bridge_db.Context.Markers.Render.{
  Block, owned_section_start_marker, owned_section_end_marker, markdown_boundary, heading_line,
  render_section, render_sections,
}

-- The names are known, and none is rendered twice.
pub data Renderable : Parsed → List Block → Type 0 where
  last : {p : Parsed} → Renderable p []
  next :
      {p : Parsed} {b : Block} {bs : List Block}
      → contains owned_sections b.name ≡ true
      → has_section b.name p ≡ false
      → All Inside b.lines
      → Renderable (p ++ (b.name, b.lines) ∷ []) bs
      → Renderable p (b ∷ bs)

-- one line that is outside every marker
outside_line :
    (line : String) (p : Parsed)
    → Outside line
    → read_marked line (record { parsed = p; current_section = none })
      ≡ ok (record { parsed = p; current_section = none })
unfolding read_marked marker_section
outside_line line p out = elim (Bool-cases (is_markdown_boundary_line line)) [
  | inl e ↦ rw (out.starts_no, out.ends_no, e) refl
  | inr e ↦ rw (out.starts_no, out.ends_no, e) refl
]

abbrev reading : Parsed → State
reading p = record { parsed = p; current_section = none }

abbrev reading_in : String → List String → Parsed → State
reading_in name lines p = record { parsed = p ++ (name, lines) ∷ []; current_section = some name }

module _ (read : String → State → Result State) where
  then_read-append :
      (xs ys : List String) (r : Result State) (s' : State)
      → ((t : State)
          → read_lines read xs t ≡ ok s'
          → read_lines read (xs ++ ys) t ≡ read_lines read ys s')
      → then_read r (read_lines read xs) ≡ ok s'
      → then_read r (read_lines read (xs ++ ys)) ≡ read_lines read ys s'
  then_read-append xs ys (ok t) s' rest h = rest t h
  then_read-append xs ys (err e) s' rest h = absurd (cc h)

  read_lines-append :
      (xs ys : List String) (s s' : State)
      → read_lines read xs s ≡ ok s'
      → read_lines read (xs ++ ys) s ≡ read_lines read ys s'
  unfolding read_lines
  read_lines-append [] ys s s' h = cc
  read_lines-append (x ∷ xs) ys s s' h =
      then_read-append xs ys (read x s) s' (λ t. read_lines-append xs ys t s') h

  first_line :
      (x : String) (xs : List String) (s t : State)
      → read x s ≡ ok t
      → read_lines read (x ∷ xs) s ≡ read_lines read xs t
  unfolding read_lines
  first_line x xs s t q = rw q refl

append_line-last :
    (name line : String) (lines : List String) (p : Parsed)
    → has_section name p ≡ false
    → append_line name line (p ++ (name, lines) ∷ []) ≡ p ++ (name, lines ++ line ∷ []) ∷ []
append_line-last name line lines [] h = rw (eq_self name) refl
append_line-last name line lines ((n, ls) ∷ p) h = elim (Bool-cases (n == name)) [
  | inl e ↦ absurd (cc (rw e at h))
  | inr e ↦ rw (e, append_line-last name line lines p (rw e at h)) refl
]

content_line :
    (name line : String) (lines : List String) (p : Parsed)
    → has_section name p ≡ false
    → Inside line
    → read_marked line (reading_in name lines p) ≡ ok (reading_in name (lines ++ line ∷ []) p)
unfolding read_marked marker_section is_markdown_boundary_line starts_with
content_line name line lines p new i =
    rw
      (
        i.outside.starts_no,
        i.outside.ends_no,
        i.boundary_no,
        append_line-last name line lines p new,
      )
      refl

content_lines :
    (name : String) (more lines : List String) (p : Parsed)
    → has_section name p ≡ false
    → All Inside more
    → read_lines read_marked more (reading_in name lines p) ≡ ok (reading_in name (lines ++ more) p)
unfolding read_lines
content_lines name [] lines p new all = rw (append-nil lines) refl
content_lines name (line ∷ more) lines p new (i, is) =
    first_line read_marked line more (reading_in name lines p) _
      (content_line name line lines p new i)
    ∙ subst
        (λ (ls : List String).
          read_lines read_marked more (reading_in name (lines ++ line ∷ []) p)
          ≡ ok (reading_in name ls p))
        (append_assoc lines (line ∷ []) more)
        (content_lines name more (lines ++ line ∷ []) p new is)

start_line :
    (name : String) (p : Parsed)
    → Framed name
    → has_section name p ≡ false
    → read_marked (owned_section_start_marker name) (reading p) ≡ ok (reading_in name [] p)
unfolding read_marked
start_line name p f new = rw (f.opens, f.opens_only, new) refl

end_line :
    (name : String) (lines : List String) (p : Parsed)
    → Framed name
    → read_marked (owned_section_end_marker name) (reading_in name lines p)
      ≡ ok (reading (p ++ (name, lines) ∷ []))
unfolding read_marked
end_line name lines p f = rw (f.closes, f.closes_only, eq_self name) refl

boundary_in :
    (t : Option SourceTrust) (name : String) (lines : List String) (p : Parsed)
    → read_marked (markdown_boundary t) (reading_in name lines p) ≡ ok (reading_in name lines p)
unfolding read_marked marker_section
boundary_in t name lines p =
    let (out, is_boundary) = boundary_line t in rw (out.starts_no, out.ends_no, is_boundary) refl

empty_line : Outside ""
unfolding drop_prefix
empty_line = record { starts_no = refl; ends_no = refl }

no_more : (s : State) → read_lines read_marked [] s ≡ ok s
unfolding read_lines
no_more s = refl

read_section :
    (b : Block) (p : Parsed)
    → Framed b.name
    → has_section b.name p ≡ false
    → All Inside b.lines
    → read_lines read_marked (render_section b) (reading p)
      ≡ ok (reading (p ++ (b.name, b.lines) ∷ []))
unfolding render_section
read_section b p f new inside =
    first_line read_marked (heading_line section_heading_map b.name) _ (reading p) _
      (outside_line (heading_line section_heading_map b.name) p f.heading)
    ∙ first_line read_marked (owned_section_start_marker b.name) _ (reading p) _
        (start_line b.name p f new)
    ∙ first_line read_marked (markdown_boundary b.source_trust) _ (reading_in b.name [] p) _
        (boundary_in b.source_trust b.name [] p)
    ∙ read_lines-append read_marked b.lines _ (reading_in b.name [] p) _
        (content_lines b.name b.lines [] p new inside)
    ∙ first_line read_marked (owned_section_end_marker b.name) _ (reading_in b.name b.lines p) _
        (end_line b.name b.lines p f)
    ∙ first_line read_marked "" [] (reading (p ++ (b.name, b.lines) ∷ [])) _
        (outside_line "" _ empty_line)
    ∙ no_more (reading (p ++ (b.name, b.lines) ∷ []))

outside_lines :
    (lines : List String) (p : Parsed)
    → All Outside lines
    → read_lines read_marked lines (reading p) ≡ ok (reading p)
outside_lines [] p all = no_more (reading p)
outside_lines (line ∷ lines) p (o, os) =
    first_line read_marked line lines (reading p) (reading p) (outside_line line p o)
    ∙ outside_lines lines p os

abbrev pub entries : List Block → Parsed
entries [] = []
entries (b ∷ bs) = (b.name, b.lines) ∷ entries bs

read_sections :
    (bs : List Block) (p : Parsed)
    → Renderable p bs
    → read_lines read_marked (render_sections bs) (reading p) ≡ ok (reading (p ++ entries bs))
unfolding render_sections
read_sections [] p last =
    no_more (reading p) ∙ ap (λ (q : Parsed). ok (reading q)) (sym (append-nil p))
read_sections (b ∷ bs) p (next known new inside rest) =
    read_lines-append read_marked (render_section b) (render_sections bs) (reading p) _
      (read_section b p (frames b.name known) new inside)
    ∙ read_sections bs (p ++ (b.name, b.lines) ∷ []) rest
    ∙ ap (λ (q : Parsed). ok (reading q)) (append_assoc p ((b.name, b.lines) ∷ []) (entries bs))

-- Reading back a document gives what was rendered into it: where the lines before and after the
-- sections have no marker, the sections' names are known and different, and no line of a section
-- is a marker or a boundary line, the marked sections of the document are the rendered ones in
-- their order, each with its lines.
pub parse_marked-render :
    (before after : List String) (bs : List Block)
    → All Outside before
    → All Outside after
    → Renderable [] bs
    → parse_marked_owned_sections (before ++ (render_sections bs ++ after)) ≡ ok (entries bs)
unfolding parse_marked_owned_sections
parse_marked-render before after bs outside_before outside_after good = ap then_close (
    read_lines-append read_marked before (render_sections bs ++ after) (reading []) (reading [])
      (outside_lines before [] outside_before)
    ∙ read_lines-append read_marked (render_sections bs) after (reading []) (reading (entries bs))
        (read_sections bs [] good)
    ∙ outside_lines after (entries bs) outside_after)
