-- ===== src/Auth/Gates.antt =====
-- What the gates of src/bridge_db/auth.py let through, in every rollout mode.
use bridge_db.Prelude.{
  ℕ, String, ◌≡◌, ◌↔◌, ◌<◌, true, Option, none, some, contains, string_eq, arith, inl, inr,
  Option-cases,
}
use bridge_db.Models.{Principal, Caller, principal_of, principal_beq_iff}
use bridge_db.Exec.{ok}
use bridge_db.Audit.{Trail}
use bridge_db.Auth.{Settings, lifespan, require_caller, require_bound_caller}
use bridge_db.Auth.Grants.{Grant, registered}

-- The grant that makes a connection a live holder of a tool: registered under the bound hash, of
-- the bound principal and generation, not expired, and scoped for the tool.
pub record Live (env : Settings) (p : Option Principal) (hash : String) (generation : Option ℕ)
    (tool : String) (g : Grant) : Type 0 where
  pub enrolled : registered hash env.registry ≡ some g
  pub same_principal : p ≡ some g.caller
  pub same_generation : generation ≡ some g.generation
  pub unexpired : env.now < g.expires_at
  pub in_scope : contains g.scopes tool ≡ true

module _ (env : Settings) (p : Option Principal) (hash : String) (generation : Option ℕ)
    (tool : String) (trail : Trail) where
  bound_needs-Live :
      (caller : Caller) (g : Grant)
      → registered hash env.registry ≡ some g
      → (require_bound_caller env (lifespan p (some hash) generation) caller tool trail).0 ≡ ok tt
      → Live env p hash generation tool g × (g.caller ≡ principal_of caller)
  unfolding require_bound_caller
  bound_needs-Live caller g e h = ground (arith, principal_beq_iff g.caller (principal_of caller))

  bound_needs_enrolment :
      (caller : Caller)
      → registered hash env.registry ≡ none
      → (require_bound_caller env (lifespan p (some hash) generation) caller tool trail).0 ≡ ok tt
      → ⊥
  unfolding require_bound_caller
  bound_needs_enrolment caller e h = ground arith

  Live-is_bound :
      (caller : Caller) (g : Grant)
      → Live env p hash generation tool g
      → g.caller ≡ principal_of caller
      → (require_bound_caller env (lifespan p (some hash) generation) caller tool trail).0 ≡ ok tt
  unfolding require_bound_caller
  Live-is_bound caller g l e = ground (
    arith,
    principal_beq_iff g.caller (principal_of caller),
    principal_beq_iff g.caller g.caller,
    principal_beq_iff (principal_of caller) (principal_of caller),
  )

  -- A connection that bound a credential passes `require_bound_caller` exactly when the registry
  -- has a live grant of the tool under that credential and its caller is the one claimed. The
  -- rollout mode plays no part.
  pub require_bound_caller-ok_iff :
      (caller : Caller)
      → ((require_bound_caller env (lifespan p (some hash) generation) caller tool trail).0 ≡ ok tt)
        ↔ ((g : Grant) × Live env p hash generation tool g × (g.caller ≡ principal_of caller))
  require_bound_caller-ok_iff caller = (
    λ h. elim (Option-cases (registered hash env.registry)) [
      | inl e ↦ absurd (bound_needs_enrolment caller e h)
      | inr (g, e) ↦ let (live, same) = bound_needs-Live caller g e h in (g, live, same)
    ],
    λ (g, live, same). Live-is_bound caller g live same,
  )

  caller_needs-Live :
      (caller : Caller) (g : Grant)
      → registered hash env.registry ≡ some g
      → (require_caller env (lifespan p (some hash) generation) caller tool trail).0 ≡ ok tt
      → Live env p hash generation tool g
  unfolding require_caller
  caller_needs-Live caller g e h = ground (arith, principal_beq_iff g.caller g.caller)

  caller_needs_enrolment :
      (caller : Caller)
      → registered hash env.registry ≡ none
      → (require_caller env (lifespan p (some hash) generation) caller tool trail).0 ≡ ok tt
      → ⊥
  unfolding require_caller
  caller_needs_enrolment caller e h = ground arith

  -- `require_caller` lets a connection that bound a credential through only with a live grant of
  -- the tool under that credential, in every rollout mode: "off" switches off the comparison of
  -- the caller, and neither expiry, revocation, generation nor scope.
  pub require_caller-Live :
      (caller : Caller)
      → (require_caller env (lifespan p (some hash) generation) caller tool trail).0 ≡ ok tt
      → (g : Grant) × Live env p hash generation tool g
  require_caller-Live caller h = elim (Option-cases (registered hash env.registry)) [
    | inl e ↦ absurd (caller_needs_enrolment caller e h)
    | inr (g, e) ↦ (g, caller_needs-Live caller g e h)
  ]
