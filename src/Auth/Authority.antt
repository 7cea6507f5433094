-- ===== src/Auth/Authority.antt =====
-- Over a loaded registry a bound caller has the tools of its closed set and no others.
use mathlib.Core.Path.{subst}
use bridge_db.Prelude.{
  ℕ, String, ◌≡◌, sym, Bool, true, false, Option, some, List, [], ◌∷◌, All, every, contains,
  string_eq, arith, eq_iff,
}
use bridge_db.Models.{Principal, Caller, principal_of}
use bridge_db.Exec.{ok}
use bridge_db.Audit.{Trail}
use bridge_db.Auth.{Settings, lifespan, require_bound_caller}
use bridge_db.Auth.Grants.{
  Grant, Registry, RegistryFile, registered, scopes_by_caller, scopes_refused,
  load_principal_grants,
}
use bridge_db.Auth.Gates.{require_bound_caller-ok_iff}
use bridge_db.Auth.Scopes.{Sound, load_principal_grants-Sound}

every-contains :
    (test : String → Bool) (xs : List String) (a : String)
    → every test xs ≡ true
    → contains xs a ≡ true
    → test a ≡ true
every-contains test [] a h c = cc
every-contains test (x ∷ xs) a h c = ground (arith, eq_iff x a, every-contains test xs a)

registered-Sound :
    (hash : String) (r : Registry) (g : Grant)
    → All Sound r
    → registered hash r ≡ some g
    → scopes_refused g.scopes (scopes_by_caller g.caller) ≡ false
unfolding registered
registered-Sound hash [] g a h = cc
registered-Sound hash ((t, k) ∷ r) g a h =
    ground (arith, a.0.scopes_allowed, registered-Sound hash r g a.1)

allowed_of_scoped :
    (scopes allowed : List String) (tool : String)
    → scopes_refused scopes allowed ≡ false
    → contains scopes tool ≡ true
    → contains allowed tool ≡ true
unfolding scopes_refused
allowed_of_scoped scopes allowed tool h c =
    every-contains (contains allowed) scopes tool (ground arith) c

-- Where the registry was loaded from an enrolment file, whatever that file says, a connection with
-- a bound credential passes `require_bound_caller` only for tools of the closed scope set of the
-- caller that it names.
pub require_bound_caller-allowed :
    (from_iso : String → Option ℕ) (file : RegistryFile) (env : Settings) (p : Option Principal)
    (hash : String) (generation : Option ℕ) (caller : Caller) (tool : String) (trail : Trail)
    → env.registry ≡ load_principal_grants from_iso file
    → (require_bound_caller env (lifespan p (some hash) generation) caller tool trail).0 ≡ ok tt
    → contains (scopes_by_caller (principal_of caller)) tool ≡ true
require_bound_caller-allowed from_iso file env p hash generation caller tool trail e h =
    let (g, live, same) =
      (require_bound_caller-ok_iff env p hash generation tool trail caller).0 h in
    let sound = subst (All Sound) (sym e) (load_principal_grants-Sound from_iso file) in
    subst (λ c. contains (scopes_by_caller c) tool ≡ true) same
      (allowed_of_scoped g.scopes (scopes_by_caller g.caller) tool
        (registered-Sound hash env.registry g sound live.enrolled) live.in_scope)
