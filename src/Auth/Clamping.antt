-- ===== src/Auth/Clamping.antt =====
-- What `clamp_source_trust` gives where it is active.
use bridge_db.Prelude.{
  sym, refl, ◌∙◌, String, ◌≡◌, ◌≢◌, Bool, true, false, not, ◌&&◌, Option, none, some, option_eq,
  arith,
}
use bridge_db.Models.{Caller, SourceTrust, operator, agent, ingested, trust_eq}
use bridge_db.Exec.{ok-injective, ok}
use bridge_db.Audit.{Trail}
use bridge_db.Auth.{Settings, is_off, auth_mode, clamp_source_trust}

-- What `clamp_source_trust` gives where it is active: "agent" for "operator", and any other label,
-- or none, as it was asked for; the flag says which.
abbrev pub clamped : Option SourceTrust → Option SourceTrust × Bool
clamped (some operator) = (some agent, true)
clamped requested = (requested, false)

-- With `strict`, or in any rollout mode but "off", "operator" is stored as "agent" and every other
-- request is stored unchanged, the clamping is flagged exactly for "operator", and the call never
-- raises.
clamp_source_trust-eq-clamped :
    (env : Settings) (requested : Option SourceTrust) (caller : Caller) (tool : String)
    (strict : Bool) (trail : Trail)
    → (is_off (auth_mode env.mode) && not strict) ≡ false
    → (clamp_source_trust env requested caller tool strict trail).0 ≡ ok (clamped requested)
unfolding clamp_source_trust
clamp_source_trust-eq-clamped env none caller tool strict trail h = ground arith
clamp_source_trust-eq-clamped env (some operator) caller tool strict trail h = ground arith
clamp_source_trust-eq-clamped env (some agent) caller tool strict trail h = ground arith
clamp_source_trust-eq-clamped env (some ingested) caller tool strict trail h = ground arith

pub clamped-ne-operator : (requested : Option SourceTrust) → (clamped requested).0 ≢ some operator
clamped-ne-operator none h = cc
clamped-ne-operator (some operator) h = cc
clamped-ne-operator (some agent) h = cc
clamped-ne-operator (some ingested) h = cc

strict_clamps : (b : Bool) → (b && not true) ≡ false
strict_clamps true = refl
strict_clamps false = refl

-- A strict call gives the clamped label.
pub clamp_source_trust-eq-strict :
    (env : Settings) (requested : Option SourceTrust) (caller : Caller) (tool : String)
    (trail : Trail)
    → (clamp_source_trust env requested caller tool true trail).0 ≡ ok (clamped requested)
clamp_source_trust-eq-strict env requested caller tool trail =
    clamp_source_trust-eq-clamped env requested caller tool true trail
      (strict_clamps (is_off (auth_mode env.mode)))

-- A strict call that answers gives the clamped label.
pub clamp_source_trust-strict :
    (env : Settings) (requested : Option SourceTrust) (caller : Caller) (tool : String)
    (trail : Trail) (t : Option SourceTrust × Bool)
    → (clamp_source_trust env requested caller tool true trail).0 ≡ ok t
    → t ≡ clamped requested
clamp_source_trust-strict env requested caller tool trail t h =
    ok-injective _ _ (sym h ∙ clamp_source_trust-eq-strict env requested caller tool trail)
