-- ===== src/Handoffs/Outcomes/Orphans.antt =====
-- What the recovery of an orphaned handoff compares, and which capability it retires, written out.
use bridge_db.Prelude.{
  ℕ, ◌≤◌, String, ◌≡◌, refl, sym, ◌∙◌, inl, inr, true, false, ◌&&◌, not, Option, none, some, List,
  [], ◌∷◌, ◌++◌, count_where, update_where, is_none, ltb, arith, eq_iff, Bool-cases, ◌==◌, nat_eq,
  string_eq, option_eq,
}
use mathlib.Core.Path.{subst}
use mathlib.Core.Option.{some-injective}
use bridge_db.Models.{caller_eq, caller_name}
use bridge_db.Json.{Json, string, null}
use bridge_db.Platform.{Platform}
use bridge_db.Handoffs.Tables.{Handoff, Capability, status_eq}
use bridge_db.Handoffs.Claim.{text_or_null}
use bridge_db.Handoffs.Ceremonies.{row_fields}
use bridge_db.Handoffs.Recover.{
  capability_fields, recovery_digest, expired, recoverable, still_expired, retire, retirable,
}
use bridge_db.Handoffs.Outcomes.Reviews.{columns, digest}

-- every column of a capability, NULLs where there is none
abbrev pub capability_columns : Option Capability → List (String × Json)
capability_columns none =
    ("claim_session_id", null)
    ∷ ("capability_token_sha256", null)
    ∷ ("capability_claimed_caller", null)
    ∷ ("capability_allowed_transition", null)
    ∷ ("capability_issued_at", null)
    ∷ ("capability_expires_at", null)
    ∷ ("capability_consumed_at", null)
    ∷ ("capability_recovered_at", null)
    ∷ []
capability_columns (some c) =
    ("claim_session_id", string c.session_id)
    ∷ ("capability_token_sha256", string c.token_sha256)
    ∷ ("capability_claimed_caller", string (caller_name c.claimed_caller))
    ∷ ("capability_allowed_transition", string c.allowed_transition)
    ∷ ("capability_issued_at", string c.issued_at)
    ∷ ("capability_expires_at", string c.expires_at)
    ∷ ("capability_consumed_at", text_or_null c.consumed_at)
    ∷ ("capability_recovered_at", text_or_null c.recovered_at)
    ∷ []

abbrev pub both_columns : Handoff → Option Capability → List (String × Json)
both_columns h c = columns h ++ capability_columns c

pub recovery_digest-columns :
    (pf : Platform) (h : Handoff) (c : Option Capability)
    → recovery_digest pf h c ≡ digest pf (both_columns h c)
unfolding row_fields capability_fields recovery_digest
recovery_digest-columns pf h none = refl
recovery_digest-columns pf h (some c) = refl

pub same-both :
    (pf : Platform) (h k : Handoff) (c d : Option Capability)
    → (recovery_digest pf h c == recovery_digest pf k d) ≡ true
    → digest pf (both_columns h c) ≡ digest pf (both_columns k d)
same-both pf h k c d e =
    sym (recovery_digest-columns pf h c)
    ∙ (eq_iff (recovery_digest pf h c) (recovery_digest pf k d)).0 e
    ∙ recovery_digest-columns pf k d

-- the expiry of a capability can be read, and it has come
abbrev pub Lapsed : Platform → ℕ → Capability → Type 0
Lapsed pf now c = (e : ℕ) × (pf.from_iso c.expires_at ≡ some e) × (e ≤ now)

lapsed_at :
    (o : Option ℕ) (now : ℕ)
    → (elim o [ none ↦ false | some e ↦ not (ltb now e) ]) ≡ true
    → (e : ℕ) × (o ≡ some e) × (e ≤ now)
lapsed_at none now h = absurd (cc h)
lapsed_at (some e) now h = (e, refl, ground arith)

expired-Lapsed :
    (pf : Platform) (now : ℕ) (c : Capability) → expired pf now c ≡ true → Lapsed pf now c
expired-Lapsed pf now c h = lapsed_at (pf.from_iso c.expires_at) now h

-- the claim to be recovered has no capability, or one that is neither spent nor live
abbrev pub Orphaned : Platform → ℕ → Option Capability → Type 0
Orphaned pf now held =
    (c : Capability)
    → held ≡ some c
    → (is_none c.consumed_at ≡ true) × (is_none c.recovered_at ≡ true) × Lapsed pf now c

pub recoverable-Orphaned :
    (pf : Platform) (now : ℕ) (held : Option Capability)
    → recoverable pf now held ≡ true
    → Orphaned pf now held
recoverable-Orphaned pf now none h c e = absurd (cc e)
recoverable-Orphaned pf now (some d) h c e =
    subst
      (λ (x : Capability).
        (is_none x.consumed_at ≡ true) × (is_none x.recovered_at ≡ true) × Lapsed pf now x)
      (some-injective _ _ e) (ground arith, ground arith, expired-Lapsed pf now d (ground arith))

-- under the lock a capability that was reviewed is still there, and it has lapsed
abbrev pub StillLapsed : Platform → ℕ → Option Capability → Option Capability → Type 0
StillLapsed pf now held found =
    (c : Capability) → held ≡ some c → (d : Capability) × (found ≡ some d) × Lapsed pf now d

pub still_expired-StillLapsed :
    (pf : Platform) (now : ℕ) (held found : Option Capability)
    → still_expired pf now held found ≡ true
    → StillLapsed pf now held found
still_expired-StillLapsed pf now none found h c e = absurd (cc e)
still_expired-StillLapsed pf now (some b) none h c e = absurd (cc h)
still_expired-StillLapsed pf now (some b) (some d) h c e = (d, refl, expired-Lapsed pf now d h)

-- The capabilities after the recovery: as they were without one, and with the one that was reviewed
-- retired otherwise.
pub data Retired (id : ℕ) (at : String) (cs : List Capability)
    : Option Capability → List Capability → Type 0 where
  legacy : Retired id at cs none cs
  ended :
      (seen : Capability)
      → count_where
          (λ c.
            c.handoff_id == id
            && c.session_id == seen.session_id
            && is_none c.consumed_at
            && is_none c.recovered_at)
          cs
        ≡ 1
      → Retired id at cs (some seen) (
          update_where
            (λ c.
              c.handoff_id == id
              && c.session_id == seen.session_id
              && is_none c.consumed_at
              && is_none c.recovered_at)
            (λ c. record c { recovered_at = some at })
            cs)

pub retire-Retired :
    (id : ℕ) (at : String) (cs ds : List Capability) (held : Option Capability)
    → retire id held at cs ≡ some ds
    → Retired id at cs held ds
retire-Retired id at cs ds none h = subst (Retired id at cs none) (some-injective _ _ h) legacy
retire-Retired id at cs ds (some seen) h =
    elim (Bool-cases (count_where (retirable id seen.session_id) cs == 1)) [
      | inr e ↦ absurd (cc (rw e at h))
      | inl e ↦
          subst (Retired id at cs (some seen)) (some-injective _ _ (rw e at h))
            (ended seen (ground arith))
    ]
