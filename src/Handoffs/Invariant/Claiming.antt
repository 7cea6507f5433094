-- ===== src/Handoffs/Invariant/Claiming.antt =====
-- `pick_up_handoff` keeps the invariant.
use mathlib.Core.Option.{some-injective}
use mathlib.Core.Path.{subst}
use mathlib.Core.Logic.{inl, inr}
use bridge_db.Prelude.{
  ℕ, String, ◌≡◌, refl, Bool, true, false, none, some, List, [], ◌∷◌, ◌++◌, arith, count_where,
  exists, find, keyed, find-append, find-update_where, find-update_where_other, nat_beq,
  nat_beq_iff, count_where-append, count_where-update_where, find_of_count_where, Bool-cases,
  eq_self,
}
use bridge_db.Models.{Caller, operator, caller_eq}
use bridge_db.Handoffs.Tables.{Handoff, Capability, Tables, handoff, capability_of}
use bridge_db.Handoffs.Claim.{claimable, claim_row, claimed, clashes, insert_capability}
use bridge_db.Handoffs.Invariant.Defs.{row_id, owner_id, coherent, Inv, pending_uncovered}

pub clashes-count :
    (c : Capability) (cs : List Capability)
    → exists (clashes c) cs ≡ false
    → count_where (keyed owner_id c.handoff_id) cs ≡ 0
clashes-count c [] h = refl
clashes-count c (x ∷ xs) h = ground (arith, clashes-count c xs)

module _ (t : Tables) (inv : Inv t) (id : ℕ) (caller : Caller) (now : String) (c : Capability) where
  -- a live capability of the claim
  abbrev pub Issued : Type 0
  Issued =
      (c.handoff_id ≡ id)
      × (c.claimed_caller ≡ caller)
      × (c.consumed_at ≡ none)
      × (c.recovered_at ≡ none)

  -- the row and the capability that stand under an id after the claim
  abbrev after : ℕ → Bool
  after i =
      coherent (handoff i (claimed id operator caller now t).handoffs)
        (capability_of i (t.capabilities ++ c ∷ []))

  pub uncovered :
      (x : Handoff)
      → handoff id t.handoffs ≡ some x
      → claimable id operator x ≡ true
      → find (keyed owner_id id) t.capabilities ≡ none
  uncovered x found ok =
      pending_uncovered x _ (ground arith)
        (subst (λ r. coherent r (capability_of id t.capabilities) ≡ true) found (inv.coherence id))

  own_coherent :
      (x : Handoff)
      → handoff id t.handoffs ≡ some x
      → claimable id operator x ≡ true
      → Issued
      → after id ≡ true
  own_coherent x found ok (own, by, live, kept) =
      rw
        (
          find-update_where row_id (claimable id operator) (claim_row caller now) id t.handoffs
              (λ y. refl),
          found,
          ok,
          find-append (keyed owner_id id) t.capabilities (c ∷ []),
        )
        (rw (uncovered x found ok) (ground (arith, eq_self caller)))

  other_coherent : (i : ℕ) → c.handoff_id ≡ id → nat_beq id i ≡ false → after i ≡ true
  other_coherent i own e =
      rw
        (
          find-update_where_other row_id (claimable id operator) (claim_row caller now) id i
              t.handoffs (λ y. refl) (λ y q. ground arith) e,
          find-append (keyed owner_id i) t.capabilities (c ∷ []),
        )
        (ground (arith, inv.coherence i))

  claimed_coherent :
      (i : ℕ) → Issued → count_where (claimable id operator) t.handoffs ≡ 1 → after i ≡ true
  claimed_coherent i (own, by, live, kept) h =
      let (x, found, ok) =
        find_of_count_where row_id (claimable id operator) id t.handoffs (λ y e. ground arith)
          (inv.unique id) (omega arith) in
      elim (Bool-cases (nat_beq id i)) [
        | inl e ↦
            subst (λ j. after j ≡ true) ((nat_beq_iff id i).0 e)
              (own_coherent x found ok (own, by, live, kept))
        | inr e ↦ other_coherent i own e
      ]

  claimed-Inv :
      Issued
      → count_where (claimable id operator) t.handoffs ≡ 1
      → exists (clashes c) t.capabilities ≡ false
      → Inv (record (claimed id operator caller now t) { capabilities = t.capabilities ++ c ∷ [] })
  claimed-Inv issued h apart = record {
    unique = λ i. ground (
      arith,
      inv.unique i,
      count_where-update_where row_id (claimable id operator) (claim_row caller now) i t.handoffs
          (λ y. refl),
    );
    fresh = λ i e. ground (
      arith,
      inv.fresh i e,
      count_where-update_where row_id (claimable id operator) (claim_row caller now) i t.handoffs
          (λ y. refl),
    );
    one_capability = λ i. ground (
      arith,
      inv.one_capability i,
      clashes-count c t.capabilities apart,
      count_where-append (keyed owner_id i) t.capabilities (c ∷ []),
    );
    coherence = λ i. claimed_coherent i issued h;
  }

  pub claim-Inv :
      (capabilities : List Capability)
      → Issued
      → count_where (claimable id operator) t.handoffs ≡ 1
      → insert_capability c t.capabilities ≡ some capabilities
      → Inv (record (claimed id operator caller now t) { capabilities = capabilities })
  unfolding insert_capability
  claim-Inv capabilities issued h e = elim (Bool-cases (exists (clashes c) t.capabilities)) [
    | inl q ↦ absurd (cc (rw q at e))
    | inr q ↦
        subst (λ cs. Inv (record (claimed id operator caller now t) { capabilities = cs }))
          (some-injective _ _ (rw q at e)) (claimed-Inv issued h q)
  ]
