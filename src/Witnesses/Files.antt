-- ===== src/Witnesses/Files.antt =====
-- The bridge file on concrete data.
use bridge_db.Prelude.{String, ◌<>◌, ◌≡◌, refl, some, List, [], ◌∷◌, ◌++◌, string_eq}
use bridge_db.Models.{agent}
use bridge_db.Exec.{ok, err}
use bridge_db.Errors.{capacity_exceeded}
use bridge_db.Context.Protocol.{Run}
use bridge_db.Context.Sync.{
  BridgeFile, empty_report, sync_sections, sync_from_file, sync_owned_sections_from_file,
}
use bridge_db.Context.Sync.Staging.{sync_from_file-Runs}
use bridge_db.Context.Sync.Oversized.{sync_owned_sections_from_file-oversized}
use Prim.Native.String.{len}
use Prim.Native.Char.{Char, code}
use Prim.Native.String.append.{cons}
use bridge_db.ContentIndex.{join_lines}
use bridge_db.Context.Markers.{starts_with, read_lines, is_markdown_boundary_line}
use bridge_db.Context.Markers.{drop_prefix}
use bridge_db.Context.Markers.{parse_marked_owned_sections}
use bridge_db.Context.Markers.Render.{Block, render_sections}
use bridge_db.Context.Markers.Framing.{Outside, Inside}
use bridge_db.Context.Markers.RoundTrip.{last, next, parse_marked-render}
use bridge_db.Witnesses.Data.{platform}
use mathlib.Core.Path.{subst}
use mathlib.Core.Option.{some-injective}
use bridge_db.Prelude.{
  ℕ, arith, ap, sym, eq_iff, ◌∙◌, leb, not, Bool, strip, nat_eq, true, false, Bool-cases, inl, inr,
  ◌==◌, string_eq, strip_text, drop_first, drop_last,
}
use bridge_db.Context.Parse.{
  strip_newlines, parse_owned_sections, parse_legacy_owned_sections, read_legacy,
}
use bridge_db.Context.Sections.{section_row, section_max_bytes}
use bridge_db.Context.Sync.{is_unchanged, body_of, sync_parsed}
use bridge_db.Context.Sync.Unchanged.{with_unchanged, sync_parsed-unchanged}
use bridge_db.Witnesses.Contexts.{career, stored, env, conn, now}

abbrev file : BridgeFile
file = record {
  content = "## Speaking Engagements\nnone";
  lines = "## Speaking Engagements" ∷ "none" ∷ [];
  resolved_path = "/bridge.md";
}

sync_from_file-Runs_example :
    Run stored.tables (sync_from_file platform env conn now (some file) stored).1.tables
sync_from_file-Runs_example = sync_from_file-Runs platform env conn now (some file) stored

abbrev twice : String → String
twice s = s <> s

abbrev large : String
large = twice (
    twice (
      twice (
        twice (
          twice (
            twice (
              twice (
                twice (
                  twice (
                    twice (
                      twice (
                        twice (
                          "a line of the section that is sixty-four characters in length..."))))))))))))

abbrev big : String
big = large <> "x"

-- whether a text begins with a character that is not stripped
head_stays : (ℕ → Bool) → String → Bool
head_stays test String.[] = true
head_stays test (String.◌∷◌ c s) = not (test (code c))

drop_first-stays : (test : ℕ → Bool) (s : String) → head_stays test s ≡ true → drop_first test s ≡ s
unfolding drop_first head_stays
drop_first-stays test String.[] h = refl
drop_first-stays test (String.◌∷◌ c s) h = ground arith

is_empty_text : String → Bool
is_empty_text String.[] = true
is_empty_text (String.◌∷◌ c s) = false

never_empty : (c : Char) (s : String) → (String.◌∷◌ c s == "") ≡ false
unfolding is_empty_text
never_empty c s = elim (Bool-cases (String.◌∷◌ c s == "")) [
  | inl e ↦ absurd (cc (ap is_empty_text ((eq_iff (String.◌∷◌ c s) "").0 e)))
  | inr e ↦ e
]

drop_last-stays :
    (test : ℕ → Bool) (s : String)
    → test 120 ≡ false
    → (drop_last test (s <> "x") ≡ s <> "x") × (((s <> "x") == "") ≡ false)
unfolding drop_last
drop_last-stays test String.[] h = (rw h refl, refl)
drop_last-stays test (String.◌∷◌ c s) h =
    let (kept, more) = drop_last-stays test s h in
    let step = cons c s "x" in
    (
      subst (λ (y : String). drop_last test y ≡ y) (sym step) (rw (kept, more) (ground arith)),
      subst (λ (y : String). (y == "") ≡ false) (sym step) (never_empty c (s <> "x")),
    )

strip_big : strip_newlines big ≡ big
unfolding strip_newlines strip_text head_stays
strip_big =
    ap (drop_last (λ c. c == 10)) (drop_first-stays (λ c. c == 10) big refl)
    ∙ (drop_last-stays (λ c. c == 10) large refl).0

abbrev big_file : BridgeFile
big_file = record {
  content = "## Speaking Engagements\n" <> big;
  lines = "## Speaking Engagements" ∷ big ∷ [];
  resolved_path = "/bridge.md";
}

abbrev big_bodies : List (String × String)
big_bodies = ("speaking", strip_newlines big) ∷ []

big_parsed : parse_owned_sections big_file.lines ≡ ok big_bodies
unfolding parse_owned_sections parse_legacy_owned_sections read_lines read_legacy drop_prefix
    starts_with is_markdown_boundary_line join_lines strip
big_parsed = refl

is_big : leb (len (strip_newlines big)) section_max_bytes ≡ false
is_big = ap (λ (c : String). leb (len c) section_max_bytes) strip_big ∙ refl

sync_owned_sections_from_file-oversized_example :
    sync_owned_sections_from_file platform now "cc" (some big_file) stored ≡ (
      err (
          capacity_exceeded "context.section_utf8_bytes_exceeded" 262144
            (len (strip_newlines big))),
      stored,
    )
unfolding sync_sections
sync_owned_sections_from_file-oversized_example =
    sync_owned_sections_from_file-oversized platform now "cc" big_file big_bodies ("career" ∷ [])
      ("research" ∷ "capabilities" ∷ "portfolio" ∷ []) "speaking" (strip_newlines big) empty_report
      stored stored big_parsed refl refl refl refl is_big

abbrev block : Block
block = record { name = "career"; source_trust = some agent; lines = "one" ∷ "" ∷ "two" ∷ [] }

outside_title : Outside "# Bridge"
unfolding drop_prefix
outside_title = record { starts_no = refl; ends_no = refl }

text_one : Inside "one"
unfolding drop_prefix
text_one = record { outside = record { starts_no = refl; ends_no = refl }; boundary_no = refl }

text_two : Inside "two"
unfolding drop_prefix
text_two = record { outside = record { starts_no = refl; ends_no = refl }; boundary_no = refl }

text_empty : Inside ""
unfolding drop_prefix
text_empty = record { outside = record { starts_no = refl; ends_no = refl }; boundary_no = refl }

parse_marked-render_example :
    parse_marked_owned_sections ("# Bridge" ∷ (render_sections (block ∷ []) ++ "# Bridge" ∷ []))
    ≡ ok (("career", "one" ∷ "" ∷ "two" ∷ []) ∷ [])
parse_marked-render_example =
    parse_marked-render ("# Bridge" ∷ []) ("# Bridge" ∷ []) (block ∷ []) (outside_title, tt)
      (outside_title, tt) (next refl refl (text_one, (text_empty, (text_two, tt))) last)

abbrev stored_bodies : List (String × String)
stored_bodies = ("career", "old\n") ∷ []

is_stored :
    (name content : String)
    → body_of name stored_bodies ≡ some content
    → is_unchanged platform now "claude_ai" file stored.tables content
        (section_row name stored.tables.sections)
      ≡ true
unfolding strip_newlines strip_text drop_first drop_last
is_stored name content h = elim (Bool-cases ("career" == name)) [
  | inl e ↦ rw e (
      subst
        (λ (c : String).
          is_unchanged platform now "claude_ai" file stored.tables c (some career) ≡ true)
        (some-injective _ _ (rw e at h)) refl)
  | inr e ↦ absurd (cc (rw e at h))
]

sync_parsed-unchanged_example :
    sync_parsed platform now "claude_ai" file stored.tables stored_bodies stored
    ≡ (ok (with_unchanged ("career" ∷ []) empty_report), stored)
sync_parsed-unchanged_example =
    sync_parsed-unchanged platform now "claude_ai" file stored.tables stored_bodies stored is_stored
