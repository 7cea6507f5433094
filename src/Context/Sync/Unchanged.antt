-- ===== src/Context/Sync/Unchanged.antt =====
-- A file that says what is stored.
use mathlib.Core.List.{append-nil, append_assoc}
use bridge_db.Prelude.{
  ◌≡◌, refl, sym, ap, ◌∙◌, String, true, Option, none, some, List, [], ◌∷◌, ◌++◌,
}
use bridge_db.Platform.{Platform}
use bridge_db.Exec.{Result, ok, ◌>>=◌, bind_result}
use bridge_db.Context.Sections.{Tables, Store, section_row}
use bridge_db.Context.Sync.{
  BridgeFile, Report, empty_report, body_of, is_unchanged, sync_section, sync_sections,
  synced_names, finish, sync_parsed,
}

-- The names that the file has a section for.
abbrev pub in_file : List (String × String) → List String → List String
in_file parsed [] = []
in_file parsed (name ∷ names) = elim (body_of name parsed) [
  | none ↦ in_file parsed names
  | some body ↦ name ∷ in_file parsed names
]

abbrev pub with_unchanged : List String → Report → Report
with_unchanged names r = record r { unchanged = r.unchanged ++ names }

module _ (pf : Platform) (now principal : String) (file : BridgeFile) (before : Tables)
    (parsed : List (String × String)) (s : Store)
    (same : (name content : String)
      → body_of name parsed ≡ some content
      → is_unchanged pf now principal file before content (section_row name s.tables.sections)
        ≡ true) where
  section_unchanged :
      (name : String) (o : Option String) (r : Report)
      → body_of name parsed ≡ o
      → sync_section pf now principal file before name o r s
        ≡ (ok (elim o [ none ↦ r | some body ↦ with_unchanged (name ∷ []) r ]), s)
  section_unchanged name none r e = refl
  section_unchanged name (some content) r e = rw (same name content e) refl

  rest_unchanged :
      (name : String) (names : List String) (o : Option String) (r : Report)
      → body_of name parsed ≡ o
      → ((q : Report)
          → sync_sections pf now principal file before parsed names q s
            ≡ (ok (with_unchanged (in_file parsed names) q), s))
      → (sync_section pf now principal file before name o r
            >>= sync_sections pf now principal file before parsed names)
          s
        ≡ (
          ok (
              with_unchanged
                (elim o [ none ↦ in_file parsed names | some body ↦ name ∷ in_file parsed names ])
                r),
          s,
        )
  rest_unchanged name names none r e goes = goes r
  rest_unchanged name names (some content) r e goes =
      ap
        (λ (x : Result Report × Store).
          bind_result x.0 (sync_sections pf now principal file before parsed names) x.1)
        (section_unchanged name (some content) r e)
      ∙ goes (with_unchanged (name ∷ []) r)
      ∙ ap (λ (ns : List String). (ok (record r { unchanged = ns }), s))
          (append_assoc r.unchanged (name ∷ []) (in_file parsed names))

  sections_unchanged :
      (names : List String) (r : Report)
      → sync_sections pf now principal file before parsed names r s
        ≡ (ok (with_unchanged (in_file parsed names) r), s)
  unfolding sync_sections
  sections_unchanged [] r =
      ap (λ (ns : List String). (ok (record r { unchanged = ns }), s))
        (sym (append-nil r.unchanged))
  sections_unchanged (name ∷ names) r =
      rest_unchanged name names (body_of name parsed) r refl (sections_unchanged names)

  -- Where each section of the file has the content that is stored, but for newlines at its ends,
  -- the synchronisation changes nothing at all: no label, no version, no receipt and no audit
  -- line; and it reports exactly the sections of the file as unchanged.
  pub sync_parsed-unchanged : sync_parsed pf now principal file before parsed s ≡ (
    ok (with_unchanged (in_file parsed (synced_names pf now principal file before)) empty_report),
    s,
  )
  sync_parsed-unchanged =
      ap (λ (x : Result Report × Store). bind_result x.0 (finish pf now principal file before) x.1)
        (sections_unchanged (synced_names pf now principal file before) empty_report)
