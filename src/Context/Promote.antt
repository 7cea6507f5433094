-- ===== src/Context/Promote.antt =====
-- `run_promote_section` of src/bridge_db/__main__.py: an operator at a terminal reviews one version
-- of a section and gives it operator trust. `between` is what others commit during the review; what
-- the terminal shows is not modelled.
use bridge_db.Prelude.{
  ℕ, String, ◌<>◌, ◌≡◌, refl, Bool, true, false, ◌&&◌, Option, none, some, str, count_where,
  update_where, exists, arith, eq_iff, nat_beq_iff, ◌==◌, ◌!=◌, nat_eq, string_eq, if◌then◌else◌,
}
use bridge_db.Models.{SourceTrust, operator, trust_eq, trust_beq_iff, trust_name, section_owners}
use bridge_db.Platform.{Platform}
use bridge_db.Exec.{Exec, Result, ok, pure, ◌>>=◌, ◌>>◌}
use bridge_db.Handoffs.Ceremonies.{agreed}
use bridge_db.Session.{audit, get_tables, put_tables}
use bridge_db.Context.Sections.{Section, Tables, Store, named, section_row}

pub record Review : Type 0 where
  pub tty : Bool  -- sys.stdin.isatty()
  pub answer : Option String
  pub between : Tables → Tables

-- WHERE section_name = ? AND version = ? AND source_trust = ?
abbrev pub section_promotable : String → ℕ → SourceTrust → Section → Bool
section_promotable name version trust s =
    named name s && s.version == version && s.source_trust == trust

abbrev pub promote_section_row : Section → Section
promote_section_row s = record s { source_trust = operator }

abbrev pub section_promoted : String → ℕ → SourceTrust → Tables → Tables
section_promoted name version trust t = record t {
  sections = update_where (section_promotable name version trust) promote_section_row t.sections;
}

module _ (pf : Platform) (env : Review) (name : String) where
  abbrev pub audit_promotion : Section → Exec Store Bool
  audit_promotion row = do
    audit "auth.promote_section" (some "operator-cli") none true (
        some (
          "section="
          <> name
          <> " version="
          <> str row.version
          <> " "
          <> trust_name row.source_trust
          <> "->operator sha256="
          <> pf.sha256 row.content))
    pure true

  abbrev pub commit_section_promotion : Section → Tables → Exec Store Bool
  commit_section_promotion row t = do
    put_tables (section_promoted name row.version row.source_trust t)
    audit_promotion row

  abbrev pub write_section_promotion : Section → Tables → Exec Store Bool
  write_section_promotion row t =
      if count_where (section_promotable name row.version row.source_trust) t.sections != 1
      then pure false
      else commit_section_promotion row t

  abbrev pub is_reviewed : Section → Section → Bool
  is_reviewed row current =
      current.version == row.version
      && current.source_trust == row.source_trust
      && pf.sha256 current.content == pf.sha256 row.content

  -- Under the lock, with the row that was reviewed.
  abbrev pub promote_locked_section : Section → Tables → Option Section → Exec Store Bool
  promote_locked_section row t none = pure false
  promote_locked_section row t (some current) =
      if is_reviewed row current then write_section_promotion row t else pure false

  abbrev pub lock_and_promote_section : Section → Exec Store Bool
  lock_and_promote_section row = do
    t ← get_tables
    put_tables (env.between t)
    promote_locked_section row (env.between t) (section_row name (env.between t).sections)

  abbrev pub ask : Section → Exec Store Bool
  ask row = if agreed env.answer then lock_and_promote_section row else pure false

  abbrev pub promote_reviewed_section : Option Section → Exec Store Bool
  promote_reviewed_section none = pure false
  promote_reviewed_section (some row) = if row.source_trust == operator then pure true else ask row

  abbrev pub review : Exec Store Bool
  review = do t ← get_tables; promote_reviewed_section (section_row name t.sections)

  abbrev pub is_known_section : Bool
  is_known_section = exists (λ o. o.0 == name) section_owners

  unfoldable pub run_promote_section : Exec Store Bool
  run_promote_section = if is_known_section && env.tty then review else pure false

  -- How the ceremony ends: the answer, and the tables after it.
  pub data Promotion (t : Tables) : Result Bool → Tables → Type 0 where
    not_begun : Promotion t (ok false) t
    trusted_already :
        (row : Section)
        → section_row name t.sections ≡ some row
        → row.source_trust ≡ operator
        → Promotion t (ok true) t
    -- refused under the lock: what others committed stays
    refused_locked : Promotion t (ok false) (env.between t)
    -- the row that was reviewed, unchanged under the lock
    carried_out :
        (row current : Section)
        → env.tty ≡ true
        → agreed env.answer ≡ true
        → section_row name t.sections ≡ some row
        → section_row name (env.between t).sections ≡ some current
        → current.version ≡ row.version
        → current.source_trust ≡ row.source_trust
        → pf.sha256 current.content ≡ pf.sha256 row.content
        → count_where
            (section_promotable name row.version row.source_trust)
            (env.between t).sections
          ≡ 1
        → Promotion t (ok true) (section_promoted name row.version row.source_trust (env.between t))

  abbrev Ends : Store → Result Bool × Store → Type 0
  Ends s r = Promotion s.tables r.0 r.1.tables

  choose :
      (b : Bool) (m k : Exec Store Bool) (s s' : Store)
      → (b ≡ true → Ends s (m s'))
      → (b ≡ false → Ends s (k s'))
      → Ends s ((if b then m else k) s')
  choose true m k s s' p q = p refl
  choose false m k s s' p q = q refl

  abbrev locked_store : Store → Store
  locked_store s = record s { tables = env.between s.tables }

  locked-Promotion :
      (s : Store) (row : Section) (o : Option Section)
      → env.tty ≡ true
      → agreed env.answer ≡ true
      → section_row name s.tables.sections ≡ some row
      → section_row name (env.between s.tables).sections ≡ o
      → Ends s (promote_locked_section row (env.between s.tables) o (locked_store s))
  locked-Promotion s row none tty consent seen found = refused_locked
  locked-Promotion s row (some current) tty consent seen found =
      let t = env.between s.tables in
      choose (is_reviewed row current) (write_section_promotion row t) (pure false) s
        (locked_store s)
        (λ same.
          choose
            (count_where (section_promotable name row.version row.source_trust) t.sections != 1)
            (pure false) (commit_section_promotion row t) s (locked_store s) (λ _. refused_locked)
            (λ one.
              carried_out row current tty consent seen found
                (ground (arith, nat_beq_iff current.version row.version))
                (ground (arith, trust_beq_iff current.source_trust row.source_trust))
                (ground (arith, eq_iff (pf.sha256 current.content) (pf.sha256 row.content)))
                (ground arith)))
        (λ _. refused_locked)

  reviewed-Promotion :
      (s : Store) (o : Option Section)
      → env.tty ≡ true
      → section_row name s.tables.sections ≡ o
      → Ends s (promote_reviewed_section o s)
  reviewed-Promotion s none tty seen = not_begun
  reviewed-Promotion s (some row) tty seen =
      choose (row.source_trust == operator) (pure true) (ask row) s s
        (λ e. trusted_already row seen ((trust_beq_iff row.source_trust operator).0 e))
        (λ _.
          choose (agreed env.answer) (lock_and_promote_section row) (pure false) s s
            (λ consent. locked-Promotion s row _ tty consent seen refl) (λ _. not_begun))

  -- Every branch of the promotion of a section. It gives the operator's label only to the version,
  -- under the label and with the digest of its content, that the operator at a terminal reviewed
  -- and agreed to, and only while exactly that row is stored under the lock; on every other branch
  -- it writes nothing, and it answers yes without a promotion only for a row that is trusted
  -- already.
  pub run_promote_section-Promotion :
      (s : Store) → Promotion s.tables (run_promote_section s).0 (run_promote_section s).1.tables
  unfolding run_promote_section
  run_promote_section-Promotion s =
      choose (is_known_section && env.tty) review (pure false) s s
        (λ known. reviewed-Promotion s _ (ground arith) refl) (λ _. not_begun)
