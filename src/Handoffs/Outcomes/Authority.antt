-- ===== src/Handoffs/Outcomes/Authority.antt =====
-- The checks that a handoff tool begins with.
use mathlib.Core.Logic.{inl, inr}
use bridge_db.Prelude.{String, ◌≡◌, refl, true, Bool-cases}
use bridge_db.Models.{Caller}
use bridge_db.Exec.{Exec, Result, ok}
use bridge_db.Audit.{Trail}
use bridge_db.Session.Runs.{Result-cases}
use bridge_db.Auth.{require_caller, require_bound_caller}
use bridge_db.Handoffs.Store.{Store, Call}
use bridge_db.Handoffs.Claim.{claimants, authorised}

-- The body of a tool that was let through.
pub record Admitted {A : Type 0} (call : Call) (caller : Caller) (tool : String)
    (body : Exec Store A) (s : Store) (r : Result A × Store) : Type 0 where
  pub start : Store
  pub same_tables : start.tables ≡ s.tables
  pub may_claim : claimants caller ≡ true
  pub before : Trail
  pub is_bound : (require_bound_caller call.settings call.conn caller tool before).0 ≡ ok tt
  pub runs : r ≡ body start

module _ {A : Type 0} (call : Call) (caller : Caller) (tool : String) (body : Exec Store A)
    (s : Store) (a : A) where
  pub authorised-ok :
      (authorised call caller tool body s).0 ≡ ok a
      → Admitted call caller tool body s (authorised call caller tool body s)
  unfolding authorised
  authorised-ok h =
      let first = require_caller call.settings call.conn caller tool s.trail in
      let second = require_bound_caller call.settings call.conn caller tool first.1 in
      elim (Result-cases first.0) [
        | inr (e, q) ↦ absurd (cc (rw q at h))
        | inl (_, q) ↦ elim (Result-cases second.0) [
          | inr (e, r) ↦ absurd (cc (rw (q, r) at h))
          | inl (_, r) ↦ elim (Bool-cases (claimants caller)) [
            | inr c ↦ absurd (cc (rw (q, r, c) at h))
            | inl c ↦ record {
              start = record s { trail = second.1 };
              same_tables = refl;
              may_claim = c;
              before = first.1;
              is_bound = r;
              runs = rw (q, r, c) refl;
            }
          ]
        ]
      ]
