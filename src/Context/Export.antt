-- ===== src/Context/Export.antt =====
-- `record_context_export_state` of src/bridge_db/tools/export.py: the version and the digest of each
-- section that a written bridge file shows, which the synchronisation compares with.
use bridge_db.Prelude.{
  String, ◌≡◌, refl, ◌∙◌, ap, inl, inr, Bool, true, false, some, List, [], ◌∷◌, ◌++◌, arith,
  Bool-cases, eq_self, eq_iff, every, ◌!=◌, ◌==◌, string_eq, nat_eq, if◌then◌else◌,
}
use bridge_db.Platform.{Platform}
use bridge_db.Context.Sections.{Section, ExportBase, Tables}
use bridge_db.Context.Parse.{strip_newlines}
use bridge_db.Context.Sync.{BridgeFile, export_base, is_exported}

-- ContextExportSnapshot, of a stored section
abbrev pub snapshot_of : Platform → Section → ExportBase
snapshot_of pf s = record {
  section_name = s.section_name;
  exported_version = s.version;
  exported_content_sha256 = pf.sha256 (strip_newlines s.content);
}

abbrev is_base : String → ExportBase → Bool
is_base name e = e.section_name == name

-- INSERT … ON CONFLICT(section_name) DO UPDATE
unfoldable pub put_base : ExportBase → List ExportBase → List ExportBase
put_base new [] = new ∷ []
put_base new (e ∷ es) =
    let rest = e ∷ put_base new es in if e.section_name == new.section_name then new ∷ es else rest

unfoldable pub record_context_export_state : List ExportBase → List ExportBase → List ExportBase
unfolding put_base
record_context_export_state [] exports = exports
record_context_export_state (row ∷ snapshot) exports =
    record_context_export_state snapshot (put_base row exports)

put_found :
    (new : ExportBase) (es : List ExportBase)
    → export_base new.section_name (put_base new es) ≡ some new
unfolding put_base
put_found new [] = rw (eq_self new.section_name) refl
put_found new (e ∷ es) = elim (Bool-cases (e.section_name == new.section_name)) [
  | inl q ↦ rw (q, eq_self new.section_name) refl
  | inr q ↦ rw q (rw (q, put_found new es) refl)
]

put_other :
    (new : ExportBase) (name : String) (es : List ExportBase)
    → (new.section_name == name) ≡ false
    → export_base name (put_base new es) ≡ export_base name es
unfolding put_base
put_other new name [] h = rw h refl
put_other new name (e ∷ es) h = elim (Bool-cases (e.section_name == new.section_name)) [
  | inl q ↦
      let same = (eq_iff e.section_name new.section_name).0 q in
      let apart = ap (λ (n : String). n == name) same ∙ h in rw q (rw (h, apart) refl)
  | inr q ↦ ground (arith, q, put_other new name es h)
]

kept_base :
    (ys : List ExportBase) (name : String) (es : List ExportBase)
    → every (λ (e : ExportBase). e.section_name != name) ys ≡ true
    → export_base name (record_context_export_state ys es) ≡ export_base name es
unfolding record_context_export_state
kept_base [] name es h = refl
kept_base (y ∷ ys) name es h =
    kept_base ys name (put_base y es) (ground arith) ∙ put_other y name es (ground arith)

-- A section that the export recorded, and that nobody changed since, is imported over: its base is
-- found and matches the version and the content, whatever else the export recorded.
pub export-accepts :
    (pf : Platform) (now principal : String) (file : BridgeFile) (before : Tables) (s : Section)
    (xs ys exports : List ExportBase)
    → every (λ (e : ExportBase). e.section_name != s.section_name) ys ≡ true
    → (export_base s.section_name
          (record_context_export_state (xs ++ snapshot_of pf s ∷ ys) exports)
        ≡ some (snapshot_of pf s))
      × (is_exported pf now principal file before s (snapshot_of pf s) ≡ true)
unfolding record_context_export_state
export-accepts pf now principal file before s [] ys exports h = (
  kept_base ys s.section_name (put_base (snapshot_of pf s) exports) h
      ∙ put_found (snapshot_of pf s) exports,
  rw (eq_self s.version, eq_self (pf.sha256 (strip_newlines s.content))) refl,
)
export-accepts pf now principal file before s (x ∷ xs) ys exports h =
    export-accepts pf now principal file before s xs ys (put_base x exports) h
