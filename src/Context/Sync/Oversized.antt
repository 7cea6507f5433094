-- ===== src/Context/Sync/Oversized.antt =====
-- A section of the file that is over its limit.
use Prim.Native.String.{len}
use bridge_db.Prelude.{
  ◌≡◌, refl, ◌∙◌, sym, ap, String, false, Option, none, some, List, [], ◌∷◌, ◌++◌, leb,
}
use mathlib.Core.Path.{subst}
use mathlib.Core.Option.{some-injective}
use bridge_db.Platform.{Platform}
use bridge_db.Exec.{Exec, Result, ok-injective, ok, err, lift, ◌>>=◌, bind_result}
use bridge_db.Errors.{capacity_exceeded}
use bridge_db.Capacity.{require_utf8_bytes, utf8_size}
use bridge_db.Session.Runs.{bind-ok, bind-first}
use bridge_db.Context.Sections.{Tables, Store, section_row, section_max_bytes}
use bridge_db.Context.Sync.{
  BridgeFile, Report, empty_report, body_of, is_unchanged, sync_section, sync_sections,
  synced_names, finish, sync_batch, sync_owned_sections_from_file,
}
use bridge_db.Context.Parse.{parse_owned_sections}

module _ (pf : Platform) (now principal : String) (file : BridgeFile) (before : Tables)
    (parsed : List (String × String)) where
  abbrev sync : List String → Report → Exec Store Report
  sync = sync_sections pf now principal file before parsed

  sync_sections-append :
      (done rest : List String) (r r' : Report) (s : Store)
      → (sync done r s).0 ≡ ok r'
      → sync (done ++ rest) r s ≡ sync rest r' (sync done r s).1
  unfolding sync_sections
  sync_sections-append [] rest r r' s h = ap (λ (q : Report). sync rest q s) (ok-injective _ _ h)
  sync_sections-append (name ∷ done) rest r r' s h =
      let first = sync_section pf now principal file before name (body_of name parsed) r in
      let (q, passed, whole) = bind-ok first (sync done) s r' h in
      let after : Store = (first s).1 in
      bind-first first (sync (done ++ rest)) s q passed
      ∙ sync_sections-append done rest q r' after
          (subst (λ (x : Result Report × Store). x.0 ≡ ok r') whole h)
      ∙ ap (λ (x : Result Report × Store). sync rest r' x.1) (sym whole)

  oversized_section :
      (name content : String) (r : Report) (s : Store)
      → is_unchanged pf now principal file before content (section_row name s.tables.sections)
        ≡ false
      → leb (len content) section_max_bytes ≡ false
      → sync_section pf now principal file before name (some content) r s ≡ (
        err (
            capacity_exceeded "context.section_utf8_bytes_exceeded" section_max_bytes
              (len content)),
        s,
      )
  unfolding require_utf8_bytes utf8_size
  oversized_section name content r s changed large = rw (changed, large) refl

  too_large : String → Result Report
  too_large content =
      err (capacity_exceeded "context.section_utf8_bytes_exceeded" section_max_bytes (len content))

  stopped :
      (name content : String) (rest : List String) (r : Report) (s : Store) (o : Option String)
      → o ≡ some content
      → is_unchanged pf now principal file before content (section_row name s.tables.sections)
        ≡ false
      → leb (len content) section_max_bytes ≡ false
      → (sync_section pf now principal file before name o r >>= sync rest) s
        ≡ (too_large content, s)
  unfolding too_large
  stopped name content rest r s none e changed large = absurd (cc e)
  stopped name content rest r s (some c) e changed large =
      subst
        (λ (x : String).
          (sync_section pf now principal file before name (some x) r >>= sync rest) s
          ≡ (too_large content, s))
        (sym (some-injective _ _ e))
        (ap (λ (x : Result Report × Store). bind_result x.0 (sync rest) x.1)
          (oversized_section name content r s changed large))

  -- the loop stops at the section
  sync_sections-oversized :
      (done rest : List String) (name content : String) (r r' : Report) (s : Store)
      → (sync_sections pf now principal file before parsed done r s).0 ≡ ok r'
      → body_of name parsed ≡ some content
      → is_unchanged pf now principal file before content (
          section_row name
            (sync_sections pf now principal file before parsed done r s).1.tables.sections)
        ≡ false
      → leb (len content) section_max_bytes ≡ false
      → sync_sections pf now principal file before parsed (done ++ name ∷ rest) r s ≡ (
        err (
            capacity_exceeded "context.section_utf8_bytes_exceeded" section_max_bytes
              (len content)),
        (sync_sections pf now principal file before parsed done r s).1,
      )
  unfolding sync_sections too_large
  sync_sections-oversized done rest name content r r' s h body changed large =
      sync_sections-append done (name ∷ rest) r r' s h
      ∙ stopped name content rest r' (sync done r s).1 (body_of name parsed) body changed large

-- A changed section of the file that is over its own limit ends the synchronisation with the
-- capacity error, wherever it stands among the section names, and what the sections before it staged
-- is not rolled back: the connection's tables are those that they left.
pub sync_owned_sections_from_file-oversized :
    (pf : Platform) (now principal : String) (file : BridgeFile) (parsed : List (String × String))
    (done rest : List String) (name content : String) (r : Report) (s s' : Store)
    → parse_owned_sections file.lines ≡ ok parsed
    → synced_names pf now principal file s.tables ≡ done ++ name ∷ rest
    → sync_sections pf now principal file s.tables parsed done empty_report s ≡ (ok r, s')
    → body_of name parsed ≡ some content
    → is_unchanged pf now principal file s.tables content (section_row name s'.tables.sections)
      ≡ false
    → leb (len content) section_max_bytes ≡ false
    → sync_owned_sections_from_file pf now principal (some file) s ≡ (
      err (capacity_exceeded "context.section_utf8_bytes_exceeded" section_max_bytes (len content)),
      s',
    )
unfolding sync_owned_sections_from_file
sync_owned_sections_from_file-oversized pf now principal file parsed done rest name content r s s'
      read order staged body changed large =
    let sync = sync_sections pf now principal file s.tables parsed in
    let finished = finish pf now principal file s.tables in
    let left = ap (λ (x : Result Report × Store). x.1) staged in
    bind-first (lift (parse_owned_sections file.lines)) (sync_batch pf now principal file) s parsed
      read
    ∙ ap
        (λ (names : List String).
          bind_result (sync names empty_report s).0 finished (sync names empty_report s).1)
        order
    ∙ ap (λ (x : Result Report × Store). bind_result x.0 finished x.1)
        (sync_sections-oversized pf now principal file s.tables parsed done rest name content
          empty_report r s (ap (λ (x : Result Report × Store). x.0) staged) body
          (subst
            (λ (u : Store).
              is_unchanged pf now principal file s.tables content
                (section_row name u.tables.sections)
              ≡ false)
            (sym left) changed)
          large)
    ∙ ap
        (λ (u : Store). (
          err (
              capacity_exceeded "context.section_utf8_bytes_exceeded" section_max_bytes
                (len content)),
          u,
        ))
        left
