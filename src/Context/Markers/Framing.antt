-- ===== src/Context/Markers/Framing.antt =====
-- The lines that frame an owned section, and what the parser makes of each.
use Prim.Native.String.{String}
use mathlib.Core.Path.{subst}
use bridge_db.Prelude.{
  ◌≡◌, refl, sym, ◌⊎◌, inl, inr, true, Option, none, some, contains, Bool-cases, eq_iff, ◌==◌,
  string_eq, option_eq,
}
use bridge_db.Models.{SourceTrust, operator, agent, ingested}
use bridge_db.Exec.{ok}
use bridge_db.Context.Markers.{
  drop_prefix, drop_suffix, starts_with, start_prefix, end_prefix, boundary_prefix, owned_sections,
  section_heading_map, marker_section, is_markdown_boundary_line,
}
use bridge_db.Context.Markers.Render.{
  owned_section_start_marker, owned_section_end_marker, markdown_boundary, heading_line,
}

-- A line outside the sections: no marker.
pub record Outside (line : String) : Type 0 where
  pub starts_no : drop_prefix start_prefix line ≡ none
  pub ends_no : drop_prefix end_prefix line ≡ none

-- A line of a section's content: no marker, and no boundary line.
pub record Inside (line : String) : Type 0 where
  pub outside : Outside line
  pub boundary_no : drop_prefix boundary_prefix line ≡ none

name_cases :
    (name : String)
    → contains owned_sections name ≡ true
    → (name ≡ "career") ⊎ (name ≡ "speaking") ⊎ (name ≡ "research") ⊎ (name ≡ "capabilities")
name_cases name h = elim (Bool-cases ("career" == name)) [
  | inl e ↦ inl (sym ((eq_iff "career" name).0 e))
  | inr a ↦ elim (Bool-cases ("speaking" == name)) [
    | inl e ↦ inr (inl (sym ((eq_iff "speaking" name).0 e)))
    | inr b ↦ elim (Bool-cases ("research" == name)) [
      | inl e ↦ inr (inr (inl (sym ((eq_iff "research" name).0 e))))
      | inr c ↦ elim (Bool-cases ("capabilities" == name)) [
        | inl e ↦ inr (inr (inr (sym ((eq_iff "capabilities" name).0 e))))
        | inr d ↦ absurd (cc (rw (a, b, c, d) at h))
      ]
    ]
  ]
]

-- What the parser makes of the lines that frame a section.
pub record Framed (name : String) : Type 0 where
  pub heading : Outside (heading_line section_heading_map name)
  pub opens : marker_section (owned_section_start_marker name) start_prefix ≡ ok (some name)
  pub opens_only : marker_section (owned_section_start_marker name) end_prefix ≡ ok none
  pub closes : marker_section (owned_section_end_marker name) end_prefix ≡ ok (some name)
  pub closes_only : marker_section (owned_section_end_marker name) start_prefix ≡ ok none

career-Framed : Framed "career"
unfolding heading_line marker_section owned_section_start_marker owned_section_end_marker
    drop_prefix drop_suffix
career-Framed = record {
  heading = record { starts_no = refl; ends_no = refl };
  opens = refl;
  opens_only = refl;
  closes = refl;
  closes_only = refl;
}

speaking-Framed : Framed "speaking"
unfolding heading_line marker_section owned_section_start_marker owned_section_end_marker
    drop_prefix drop_suffix
speaking-Framed = record {
  heading = record { starts_no = refl; ends_no = refl };
  opens = refl;
  opens_only = refl;
  closes = refl;
  closes_only = refl;
}

research-Framed : Framed "research"
unfolding heading_line marker_section owned_section_start_marker owned_section_end_marker
    drop_prefix drop_suffix
research-Framed = record {
  heading = record { starts_no = refl; ends_no = refl };
  opens = refl;
  opens_only = refl;
  closes = refl;
  closes_only = refl;
}

capabilities-Framed : Framed "capabilities"
unfolding heading_line marker_section owned_section_start_marker owned_section_end_marker
    drop_prefix drop_suffix
capabilities-Framed = record {
  heading = record { starts_no = refl; ends_no = refl };
  opens = refl;
  opens_only = refl;
  closes = refl;
  closes_only = refl;
}

pub frames : (name : String) → contains owned_sections name ≡ true → Framed name
frames name known = elim (name_cases name known) [
  | inl e ↦ subst Framed (sym e) career-Framed
  | inr (inl e) ↦ subst Framed (sym e) speaking-Framed
  | inr (inr (inl e)) ↦ subst Framed (sym e) research-Framed
  | inr (inr (inr e)) ↦ subst Framed (sym e) capabilities-Framed
]

pub boundary_line :
    (t : Option SourceTrust)
    → Outside (markdown_boundary t) × (is_markdown_boundary_line (markdown_boundary t) ≡ true)
unfolding markdown_boundary is_markdown_boundary_line drop_prefix starts_with
boundary_line none = (record { starts_no = refl; ends_no = refl }, refl)
boundary_line (some operator) = (record { starts_no = refl; ends_no = refl }, refl)
boundary_line (some agent) = (record { starts_no = refl; ends_no = refl }, refl)
boundary_line (some ingested) = (record { starts_no = refl; ends_no = refl }, refl)
