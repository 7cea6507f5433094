-- ===== src/Context/Progress.antt =====
-- A write of the steward that names the current version goes through.
use mathlib.Core.Path.{subst}
use mathlib.Core.Option.{some-injective}
use bridge_db.Prelude.{
  ℕ, ◌≤◌, ◌<◌, String, ◌≡◌, refl, sym, ◌∙◌, ap, Bool, true, false, Option, none, some, List, [],
  ◌∷◌, arith, leb, ◌!=◌, count_where, Bool-cases, inl, inr, string_eq, nat_eq, eq_self,
  if◌then◌else◌, nat_beq_iff,
}
use Prim.Native.String.{len}
use bridge_db.Models.{Caller, SourceTrust, caller_eq, section_owners}
use bridge_db.Platform.{Platform}
use bridge_db.Exec.{Exec, Result, ok}
use bridge_db.Auth.{Settings, Connection, require_caller, require_bound_caller}
use bridge_db.Auth.Clamping.{clamped, clamp_source_trust-eq-strict}
use bridge_db.Session.{gate}
use bridge_db.Session.Runs.{bind-first}
use bridge_db.Context.Sections.{
  Section, Tables, Store, named, section_row, section_max_bytes, total_max_bytes, total_bytes,
  others_with, update_aborts, rewrite_row,
}
use bridge_db.Context.Upsert.{Write, Outcome, written, cas, has_token, rewritten, upsert_section}
use bridge_db.Context.Lookup.{row-update, count_le, section_row-named}
use bridge_db.Context.Ending.{
  Ended, too_large, full_update, full_insert, taken, doubled, swapped, created, stale, missing,
  upsert_section-Ended,
}
use bridge_db.Context.Update.{
  Request, Answer, updated, owner_of, answer, label, write, as_steward, refuse_steward, owned,
  update_section,
}
use bridge_db.Context.Answered.{steward_write, strict_clamp}

count_one :
    (w : Write) (rows : List Section) (x : Section)
    → count_where (named w.section_name) rows ≤ 1
    → section_row w.section_name rows ≡ some x
    → cas w x ≡ true
    → count_where (cas w) rows ≡ 1
count_one w [] x unique found has = absurd (cc found)
count_one w (r ∷ rows) x unique found has = elim (Bool-cases (named w.section_name r)) [
  | inl e ↦
      let same : r ≡ x = some-injective _ _ (rw e at found) in
      let has_r : cas w r ≡ true = subst (λ (y : Section). cas w y ≡ true) (sym same) has in
      ground (
        arith,
        e,
        has_r,
        count_le (cas w) w.content none w.content w.section_name rows (λ y h. ground arith),
      )
  | inr e ↦ ground (arith, e, count_one w rows x (ground arith) (rw e at found) has)
]

aborts-if-over :
    (w : Write) (t : Tables)
    → total_max_bytes < others_with w.section_name w.content t.sections
    → total_bytes t.sections < others_with w.section_name w.content t.sections
    → update_aborts w.section_name w.content t.sections ≡ true
unfolding update_aborts
aborts-if-over w t e f = ground arith

-- A write whose token is current, and whose content fits, is written.
written-current :
    (now : String) (w : Write) (t : Tables) (r : Result Outcome) (u : Tables)
    → leb (len w.content) section_max_bytes ≡ true
    → update_aborts w.section_name w.content t.sections ≡ false
    → has_token w ≡ true
    → count_where (cas w) t.sections ≡ 1
    → Ended now w t r u
    → (r ≡ ok written) × (u ≡ rewritten now w t)
written-current now w t r u fits room token one (too_large e) = absurd (cc (e, fits))
written-current now w t r u fits room token one (full_update tok e f) =
    absurd (ground (arith, aborts-if-over w t e f))
written-current now w t r u fits room token one (full_insert tok new e) = absurd (cc (tok, token))
written-current now w t r u fits room token one (doubled e) = absurd (ground (arith))
written-current now w t r u fits room token one (swapped tok e small fit) = (refl, refl)
written-current now w t r u fits room token one (created tok e free small fit) =
    absurd (cc (tok, token))
written-current now w t r u fits room token one (taken tok new e) = absurd (cc (tok, token))
written-current now w t r u fits room token one (stale tok zero rec) = absurd (ground (arith))
written-current now w t r u fits room token one (missing x tok e rec) = absurd (cc (tok, token))

module _ (pf : Platform) (env : Settings) (conn : Connection) (now : String) (caller : Caller)
    (r : Request) where
  abbrev pub trusted : SourceTrust
  trusted = label pf env conn now caller r (clamped r.source_trust).0

  abbrev pub row_after : Section → Section
  row_after row = rewrite_row r.content (some trusted) now row

  -- the tables that a successful write commits
  abbrev pub committed : Tables → Tables
  committed t = rewritten now (steward_write pf env conn now caller r) t

  -- its answer, with the row that is found after the commits of others
  abbrev pub success : Tables → Answer
  success t =
      updated (section_row r.section_name (r.afterwards (committed t)).sections)
        (clamped r.source_trust).1

  -- A successful write: what it commits has the row of the next version, and what it answers and
  -- leaves is what others made of that.
  pub record Succeeds (row : Section) (t : Tables) (x : Result Answer × Store) : Type 0 where
    pub stores : section_row r.section_name (committed t).sections ≡ some (row_after row)
    pub answers : x.0 ≡ ok (success t)
    pub leaves : x.1.tables ≡ r.afterwards (committed t)

  finds_after :
      (t : Tables) (row : Section)
      → section_row r.section_name t.sections ≡ some row
      → cas (steward_write pf env conn now caller r) row ≡ true
      → section_row r.section_name
          (rewritten now (steward_write pf env conn now caller r) t).sections
        ≡ some (row_after row)
  finds_after t row found has =
      let w = steward_write pf env conn now caller r in
      row-update (cas w) w.content w.source_trust now r.section_name t.sections
      ∙ rw (found, has) refl

  write-Succeeds :
      (s : Store) (row : Section)
      → (upsert_section pf now (steward_write pf env conn now caller r) s).0 ≡ ok written
      → (upsert_section pf now (steward_write pf env conn now caller r) s).1.tables
        ≡ committed s.tables
      → section_row r.section_name s.tables.sections ≡ some row
      → cas (steward_write pf env conn now caller r) row ≡ true
      → Succeeds row s.tables
          (write pf env conn now caller r caller trusted (clamped r.source_trust).1 s)
  write-Succeeds s row first after found has =
      let w = steward_write pf env conn now caller r in
      let flag = (clamped r.source_trust).1 in
      let whole =
        bind-first (upsert_section pf now w) (answer pf env conn now caller r flag) s written
          first in
      record {
        stores = finds_after s.tables row found has;
        answers =
            ap (λ (x : Result Answer × Store). x.0) whole
            ∙ ap
                (λ (t : Tables).
                  ok (updated (section_row r.section_name (r.afterwards t).sections) flag))
                after;
        leaves = ap (λ (x : Result Answer × Store). x.1.tables) whole ∙ ap r.afterwards after;
      }

  current_token :
      (s : Store) (row : Section)
      → section_row r.section_name s.tables.sections ≡ some row
      → r.if_match_version ≡ some row.version
      → r.if_match_updated_at ≡ none
      → cas (steward_write pf env conn now caller r) row ≡ true
  current_token s row found token no_time =
      let n = section_row-named r.section_name s.tables.sections row found in
      rw (token, no_time) (ground (arith, n, nat_beq_iff row.version row.version))

  has_version :
      {v : ℕ}
      → r.if_match_version ≡ some v
      → has_token (steward_write pf env conn now caller r) ≡ true
  has_version token = rw token refl

  not_other : (c : Caller) → (c != c) ≡ false
  not_other c = rw (eq_self c) refl

  abbrev chosen : Exec Store Answer
  chosen =
      if caller != caller
      then refuse_steward pf env conn now caller r caller
      else as_steward pf env conn now caller r caller

  steward-Succeeds :
      (s : Store) (row : Section)
      → section_row r.section_name s.tables.sections ≡ some row
      → cas (steward_write pf env conn now caller r) row ≡ true
      → count_where (named r.section_name) s.tables.sections ≤ 1
      → leb (len r.content) section_max_bytes ≡ true
      → update_aborts r.section_name r.content s.tables.sections ≡ false
      → has_token (steward_write pf env conn now caller r) ≡ true
      → Succeeds row s.tables (as_steward pf env conn now caller r caller s)
  steward-Succeeds s row found has unique fits room tok =
      let w = steward_write pf env conn now caller r in
      let clamp = gate (strict_clamp pf env conn now caller r) in
      let s' : Store = (clamp s).1 in
      let one = count_one w s.tables.sections row unique found has in
      let (wrote, after) =
        written-current now w s.tables _ _ fits room tok one (upsert_section-Ended pf now w s') in
      subst (Succeeds row s.tables)
        (sym (
          bind-first clamp
            (λ (t : Option SourceTrust × Bool).
              write pf env conn now caller r caller (label pf env conn now caller r t.0) t.1)
            s (clamped r.source_trust)
            (clamp_source_trust-eq-strict env r.source_trust caller "update_section" s.trail)))
        (write-Succeeds s' row wrote after found has)

  -- A write of the section's steward goes through: where the gates let the caller through, the
  -- caller is the steward, the request names the current version of the stored section and no other
  -- token, names are unique, and the content fits both limits, `update_section` commits the row of
  -- the next version with the content and the clamped label, and answers with the row that the name
  -- finds once others have committed after it.
  pub update_section-Succeeds :
      (s : Store) (row : Section)
      → (require_caller env conn caller "update_section" s.trail).0 ≡ ok tt
      → (require_bound_caller env conn caller "update_section"
          (require_caller env conn caller "update_section" s.trail).1).0
        ≡ ok tt
      → owner_of r.section_name section_owners ≡ some caller
      → section_row r.section_name s.tables.sections ≡ some row
      → count_where (named r.section_name) s.tables.sections ≤ 1
      → r.if_match_version ≡ some row.version
      → r.if_match_updated_at ≡ none
      → leb (len r.content) section_max_bytes ≡ true
      → update_aborts r.section_name r.content s.tables.sections ≡ false
      → Succeeds row s.tables (update_section pf env conn now caller r s)
  unfolding update_section
  update_section-Succeeds s row passes bound steward found unique token no_time fits room =
      let first = gate (require_caller env conn caller "update_section") in
      let second = gate (require_bound_caller env conn caller "update_section") in
      let s1 : Store = (first s).1 in
      let s2 : Store = (second s1).1 in
      let has = current_token s row found token no_time in
      let whole =
        bind-first first
          (λ _. owned pf env conn now caller r (owner_of r.section_name section_owners)) s tt passes
        ∙ ap (λ (o : Option Caller). owned pf env conn now caller r o s1) steward
        ∙ bind-first second (λ _. chosen) s1 tt bound
        ∙ ap
            (λ (b : Bool).
              (if b
                  then refuse_steward pf env conn now caller r caller
                  else as_steward pf env conn now caller r caller)
                s2)
            (not_other caller) in
      subst (Succeeds row s.tables) (sym whole)
        (steward-Succeeds s2 row found has unique fits room (has_version token))
