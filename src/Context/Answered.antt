-- ===== src/Context/Answered.antt =====
-- What an answer of `update_section` means.
use mathlib.Core.Path.{subst}
use bridge_db.Prelude.{
  ℕ, String, ◌≡◌, refl, sym, ◌∙◌, ap, Bool, true, false, Option, none, some, Bool-cases, inl, inr,
  arith, ◌!=◌, if◌then◌else◌,
}
use bridge_db.Models.{Caller, SourceTrust, caller_eq, caller_beq_iff, section_owners}
use bridge_db.Platform.{Platform}
use bridge_db.Exec.{Exec, Result, ok-injective, ok}
use bridge_db.Audit.{Trail}
use bridge_db.Auth.{Settings, Connection, require_caller, require_bound_caller, clamp_source_trust}
use bridge_db.Auth.Clamping.{clamped, clamp_source_trust-strict}
use bridge_db.Session.{gate}
use bridge_db.Session.Runs.{bind-ok}
use bridge_db.Context.Sections.{Store, Section, Tables, section_row}
use bridge_db.Context.Upsert.{Write, Outcome, written, refused, upsert_section}
use bridge_db.Context.Ending.{Ended, upsert_section-Ended}
use bridge_db.Context.Update.{
  Request, Answer, conflict, updated, owner_of, write_of, answer, label, write, as_steward,
  refuse_steward, owned, update_section,
}

-- The answer that belongs to an outcome, and the tables that others left when it was given: a row is
-- read again after the commit, and may be of a later version.
pub data Reports (r : Request) (committed : Tables) : Answer → Outcome → Tables → Type 0 where
  reports_refused :
      {reason : String} {receipt : ℕ} {current : Option Section}
      → Reports r committed
          (conflict reason receipt current)
          (refused reason receipt current)
          committed
  reports_written :
      {flag : Bool}
      → Reports r committed
          (updated (section_row r.section_name (r.afterwards committed).sections) flag)
          written
          (r.afterwards committed)

module _ (pf : Platform) (env : Settings) (conn : Connection) (now : String) (caller : Caller)
    (r : Request) where
  -- The write of the section's steward, with the clamped label.
  abbrev pub steward_write : Write
  steward_write =
      write_of pf env conn now caller r caller
        (label pf env conn now caller r (clamped r.source_trust).0)

  pub record Answered (s : Store) (a : Answer) (after : Tables) : Type 0 where
    pub steward : owner_of r.section_name section_owners ≡ some caller
    pub seen : Trail
    pub is_bound : (require_bound_caller env conn caller "update_section" seen).0 ≡ ok tt
    pub outcome : Outcome
    pub committed : Tables
    pub ended : Ended now steward_write s.tables (ok outcome) committed
    pub reports : Reports r committed a outcome after

  reported :
      (flag : Bool) (o : Outcome) (s : Store) (a : Answer)
      → (answer pf env conn now caller r flag o s).0 ≡ ok a
      → Reports r s.tables a o (answer pf env conn now caller r flag o s).1.tables
  reported flag written s a h =
      subst (λ (x : Answer). Reports r s.tables x written (r.afterwards s.tables))
        (ok-injective _ _ h) reports_written
  reported flag (refused reason receipt current) s a h =
      subst (λ (x : Answer). Reports r s.tables x (refused reason receipt current) s.tables)
        (ok-injective _ _ h) reports_refused

  -- A write that answers.
  record Wrote (w : Write) (s : Store) (a : Answer) (after : Tables) : Type 0 where
    outcome : Outcome
    committed : Tables
    ended : Ended now w s.tables (ok outcome) committed
    reports : Reports r committed a outcome after

  write-Wrote :
      (trust : SourceTrust) (flag : Bool) (s : Store) (a : Answer)
      → (write pf env conn now caller r caller trust flag s).0 ≡ ok a
      → Wrote
          (write_of pf env conn now caller r caller trust)
          s
          a
          (write pf env conn now caller r caller trust flag s).1.tables
  write-Wrote trust flag s a h =
      let w : Write = write_of pf env conn now caller r caller trust in
      let (o, first, whole) =
        bind-ok (upsert_section pf now w) (answer pf env conn now caller r flag) s a h in
      let after : Store = (upsert_section pf now w s).1 in
      record {
        outcome = o;
        committed = after.tables;
        ended =
            subst (λ (x : Result Outcome). Ended now w s.tables x after.tables) first
              (upsert_section-Ended pf now w s);
        reports =
            subst (λ (x : Result Answer × Store). Reports r after.tables a o x.1.tables) (sym whole)
              (reported flag o after a (subst (λ (x : Result Answer × Store). x.0 ≡ ok a) whole h));
      }

  abbrev pub strict_clamp : Exec Trail (Option SourceTrust × Bool)
  strict_clamp = clamp_source_trust env r.source_trust caller "update_section" true

  as_steward-Wrote :
      (s : Store) (a : Answer)
      → (as_steward pf env conn now caller r caller s).0 ≡ ok a
      → Wrote steward_write s a (as_steward pf env conn now caller r caller s).1.tables
  as_steward-Wrote s a h =
      let rest : Option SourceTrust × Bool → Exec Store Answer =
        λ t. write pf env conn now caller r caller (label pf env conn now caller r t.0) t.1 in
      let (t, first, whole) = bind-ok (gate strict_clamp) rest s a h in
      let s' : Store = (gate strict_clamp s).1 in
      let clamps =
        clamp_source_trust-strict env r.source_trust caller "update_section" s.trail t first in
      let wrote =
        write-Wrote (label pf env conn now caller r t.0) t.1 s' a
          (subst (λ (x : Result Answer × Store). x.0 ≡ ok a) whole h) in
      subst (λ (x : Result Answer × Store). Wrote steward_write s a x.1.tables) (sym whole)
        (subst
          (λ (u : Option SourceTrust × Bool).
            Wrote (write_of pf env conn now caller r caller (label pf env conn now caller r u.0)) s
              a (rest t s').1.tables)
          clamps
          (record {
            outcome = wrote.outcome;
            committed = wrote.committed;
            ended = wrote.ended;
            reports = wrote.reports;
          }))

  caller_is : (owner : Caller) → (caller != owner) ≡ false → owner ≡ caller
  caller_is owner h = sym ((caller_beq_iff caller owner).0 (ground arith))

  chosen_Wrote :
      (owner : Caller) (s : Store) (a : Answer)
      → (caller != owner) ≡ false
      → (as_steward pf env conn now caller r owner s).0 ≡ ok a
      → Wrote steward_write s a (as_steward pf env conn now caller r owner s).1.tables
  chosen_Wrote owner s a same =
      subst
        (λ (c : Caller).
          (as_steward pf env conn now caller r c s).0 ≡ ok a
          → Wrote steward_write s a (as_steward pf env conn now caller r c s).1.tables)
        (sym (caller_is owner same)) (as_steward-Wrote s a)

  for_steward : Caller → Exec Store Answer
  for_steward owner =
      if caller != owner
      then refuse_steward pf env conn now caller r owner
      else as_steward pf env conn now caller r owner

  for_steward-Wrote :
      (owner : Caller) (s : Store) (a : Answer)
      → (for_steward owner s).0 ≡ ok a
      → (owner ≡ caller) × Wrote steward_write s a (for_steward owner s).1.tables
  unfolding for_steward
  for_steward-Wrote owner s a h = elim (Bool-cases (caller != owner)) [
    | inl e ↦ absurd (cc (rw e at h))
    | inr e ↦ (caller_is owner e, rw e (chosen_Wrote owner s a e (rw e at h)))
  ]

  -- the answer depends on the tables alone
  again :
      (s s' : Store) (a : Answer) (after : Tables)
      → s'.tables ≡ s.tables
      → Answered s' a after
      → Answered s a after
  again s s' a after same x = record {
    steward = x.steward;
    seen = x.seen;
    is_bound = x.is_bound;
    outcome = x.outcome;
    committed = x.committed;
    ended =
        subst (λ (t : Tables). Ended now steward_write t (ok x.outcome) x.committed) same x.ended;
    reports = x.reports;
  }

  owned-Answered :
      (o : Option Caller) (s : Store) (a : Answer)
      → owner_of r.section_name section_owners ≡ o
      → (owned pf env conn now caller r o s).0 ≡ ok a
      → Answered s a (owned pf env conn now caller r o s).1.tables
  unfolding for_steward
  owned-Answered none s a known h = absurd (cc h)
  owned-Answered (some owner) s a known h =
      let bound = gate (require_bound_caller env conn caller "update_section") in
      let (u, first, whole) = bind-ok bound (λ _. for_steward owner) s a h in
      let (same, wrote) =
        for_steward-Wrote owner (bound s).1 a
          (subst (λ (x : Result Answer × Store). x.0 ≡ ok a) whole h) in
      record {
        steward = known ∙ ap some same;
        seen = s.trail;
        is_bound = first;
        outcome = wrote.outcome;
        committed = wrote.committed;
        ended = wrote.ended;
        reports =
            subst
              (λ (x : Result Answer × Store). Reports r wrote.committed a wrote.outcome x.1.tables)
              (sym whole) wrote.reports;
      }

  -- An answer of `update_section` was given to the section's steward over a connection that the
  -- strict gate bound to that caller, and it reports how the write of the content under the
  -- clamped label ended: a conflict that changed nothing but the ledger, or a compare-and-swap or an
  -- insertion, with the row that the name finds once others have committed after it.
  pub update_section-Answered :
      (s : Store) (a : Answer)
      → (update_section pf env conn now caller r s).0 ≡ ok a
      → Answered s a (update_section pf env conn now caller r s).1.tables
  unfolding update_section
  update_section-Answered s a h =
      let first = gate (require_caller env conn caller "update_section") in
      let rest = owned pf env conn now caller r (owner_of r.section_name section_owners) in
      let (u, passed, whole) = bind-ok first (λ _. rest) s a h in
      subst (λ (x : Result Answer × Store). Answered s a x.1.tables) (sym whole)
        (again s (first s).1 a (rest (first s).1).1.tables refl (
          owned-Answered _ (first s).1 a refl
            (subst (λ (x : Result Answer × Store). x.0 ≡ ok a) whole h)))
