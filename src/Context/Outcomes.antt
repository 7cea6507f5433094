-- ===== src/Context/Outcomes.antt =====
-- `update_section` as a run of the protocol, and `run_promote_section` as a history of it.
use bridge_db.Prelude.{
  ℕ, ◌≡◌, ◌≢◌, ◌⊎◌, inl, inr, refl, Bool, true, Option, none, some, List, [], ◌∷◌, String, ◌!=◌,
}
use bridge_db.Exec.{Result}
use bridge_db.Context.Promote.{
  Review, Promotion, not_begun, trusted_already, refused_locked, carried_out, run_promote_section,
  run_promote_section-Promotion,
}
use mathlib.Core.Path.{subst}
use bridge_db.Models.{Caller, SourceTrust, operator, agent, ingested, caller_eq, section_owners}
use bridge_db.Platform.{Platform}
use bridge_db.Auth.{Settings, Connection, require_caller, require_bound_caller, clamp_source_trust}
use bridge_db.Auth.Clamping.{clamped, clamp_source_trust-strict}
use bridge_db.Session.{gate}
use bridge_db.Session.Runs.{Runs, gated, sequence, sequence_with, choose}
use bridge_db.Context.Sections.{Tables, Store, Section, section_row}
use bridge_db.Context.Upsert.{Outcome, written, refused, upsert_section}
use bridge_db.Context.Protocol.{Run, start, commits, History, begin, then_promote, run-History}
use bridge_db.Context.Refinement.{upsert_section-Runs}
use bridge_db.Context.Update.{
  Request, owner_of, write_of, answer, label, write, as_steward, refuse_steward, owned,
  update_section,
}
use bridge_db.Prelude.{sym}

module _ (pf : Platform) (env : Settings) (conn : Connection) (now : String) (caller : Caller)
    (r : Request) (first : (t : Tables) → Run t (r.between t))
    (second : (t : Tables) → Run t (r.afterwards t)) where
  answer-Runs : (flag : Bool) (o : Outcome) → Runs commits (answer pf env conn now caller r flag o)
  answer-Runs flag written s = second s.tables
  answer-Runs flag (refused reason receipt current) s = start

  label-clamped :
      (requested : Option SourceTrust)
      → some (label pf env conn now caller r (clamped requested).0) ≢ some operator
  label-clamped none e = cc
  label-clamped (some operator) e = cc
  label-clamped (some agent) e = cc
  label-clamped (some ingested) e = cc

  write-Runs :
      (owner : Caller) (trust : SourceTrust) (flag : Bool)
      → some trust ≢ some operator
      → Runs commits (write pf env conn now caller r owner trust flag)
  write-Runs owner trust flag h =
      let w = write_of pf env conn now caller r owner trust in
      sequence commits (upsert_section pf now w) (answer pf env conn now caller r flag)
        (upsert_section-Runs pf now w h (λ _. first)) (answer-Runs flag)

  as_steward-Runs : (owner : Caller) → Runs commits (as_steward pf env conn now caller r owner)
  as_steward-Runs owner =
      let clamp = clamp_source_trust env r.source_trust caller "update_section" true in
      sequence_with commits (gate clamp)
        (λ t. write pf env conn now caller r owner (label pf env conn now caller r t.0) t.1)
        (gated commits clamp)
        (λ t s e. write-Runs owner (label pf env conn now caller r t.0) t.1 (
          subst
            (λ (u : Option SourceTrust × Bool).
              some (label pf env conn now caller r u.0) ≢ some operator)
            (sym (clamp_source_trust-strict env r.source_trust caller "update_section" s.trail t e))
            (label-clamped r.source_trust)))

  owned-Runs : (o : Option Caller) → Runs commits (owned pf env conn now caller r o)
  owned-Runs none s = start
  owned-Runs (some owner) s =
      sequence commits (gate (require_bound_caller env conn caller "update_section")) _
        (gated commits (require_bound_caller env conn caller "update_section"))
        (λ _ s'.
          choose commits (caller != owner) (refuse_steward pf env conn now caller r owner)
            (as_steward pf env conn now caller r owner) s' (λ _. start)
            (λ _. as_steward-Runs owner s'))
        s

  -- Where what others commit while it runs are steps of the protocol, `update_section`, refusals and
  -- errors included, commits only steps of the protocol: compare-and-swaps and insertions within the
  -- byte limit under a label other than "operator", and receipts.
  pub update_section-Runs :
      (s : Store) → Run s.tables (update_section pf env conn now caller r s).1.tables
  unfolding update_section
  update_section-Runs =
      sequence commits (gate (require_caller env conn caller "update_section")) _
        (gated commits (require_caller env conn caller "update_section"))
        (λ _. owned-Runs (owner_of r.section_name section_owners))

-- A history that begins at some tables, where nothing was promoted but what the name found in them.
pub record Committed (name : String) (t u : Tables) : Type 0 where
  pub promotions : List (String × ℕ)
  pub history : History t promotions u
  pub reviewed :
      (promotions ≡ [])
      ⊎ ((row : Section) × (section_row name t.sections ≡ some row)
          × (promotions ≡ (name, row.version) ∷ []))

module _ (pf : Platform) (env : Review) (name : String)
    (others : (t : Tables) → Run t (env.between t)) where
  Promotion-Committed :
      (t : Tables) (r : Result Bool) (u : Tables) → Promotion pf env name t r u → Committed name t u
  Promotion-Committed t r u not_begun = record {
    promotions = [];
    history = begin;
    reviewed = inl refl;
  }
  Promotion-Committed t r u (trusted_already row seen label) = record {
    promotions = [];
    history = begin;
    reviewed = inl refl;
  }
  Promotion-Committed t r u refused_locked = record {
    promotions = [];
    history = run-History (others t);
    reviewed = inl refl;
  }
  Promotion-Committed t r u
        (carried_out row current tty consent seen found same_version same_label same_digest one) =
      record {
        promotions = (name, row.version) ∷ [];
        history =
            then_promote {t = env.between t} name row.version row.source_trust one
              (run-History (others t));
        reviewed = inr (row, seen, refl);
      }

  -- Where what others commit during the review are steps of the protocol, what the promotion of a
  -- section commits is a history that promotes nothing, or exactly the version of the section that
  -- was stored when the review began.
  pub run_promote_section-Committed :
      (s : Store) → Committed name s.tables (run_promote_section pf env name s).1.tables
  run_promote_section-Committed s =
      Promotion-Committed s.tables (run_promote_section pf env name s).0
        (run_promote_section pf env name s).1.tables (run_promote_section-Promotion pf env name s)
