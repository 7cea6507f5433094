-- ===== src/Handoffs/Invariant/Creation.antt =====
-- `create_handoff` and the ceremonies that change a label keep the invariant.
use mathlib.Core.Option.{some-injective}
use bridge_db.ContentIndex.{Entry}
use mathlib.Core.Path.{subst, ap}
use mathlib.Core.Logic.{inl, inr}
use bridge_db.Prelude.{
  Bool, Bool-cases, ℕ, suc, String, ◌≡◌, refl, true, Option, some, List, [], ◌∷◌, ◌++◌, arith,
  update_where, keyed, find-append, find-none_iff, find-update_where, count_where-append,
  count_where-update_where,
}
use bridge_db.Models.{SourceTrust}
use bridge_db.Handoffs.Tables.{Handoff, Quarantined, Tables, handoff, capability_of}
use bridge_db.Handoffs.Create.{Payload, insert_handoff, new_handoff, has_room}
use bridge_db.Handoffs.Invariant.Defs.{row_id, coherent, Inv}

module _ (t : Tables) (inv : Inv t) (p : Payload) (key : Option String) (trust : SourceTrust)
    (now : String) where
  abbrev row : Handoff
  row = new_handoff t.next_id p key trust now

  inserted_coherent :
      (i : ℕ)
      → coherent (handoff i (t.handoffs ++ row ∷ [])) (capability_of i t.capabilities) ≡ true
  inserted_coherent i = ground (
    arith,
    find-append (keyed row_id i) t.handoffs (row ∷ []),
    inv.coherence i,
    find-none_iff (keyed row_id i) t.handoffs,
    inv.fresh i,
  )

  inserted-Inv :
      (ix : List Entry)
      → Inv (record t { handoffs = t.handoffs ++ row ∷ []; next_id = suc t.next_id; index = ix })
  inserted-Inv ix = record {
    unique = λ i. ground (
      arith,
      inv.unique i,
      inv.fresh i,
      count_where-append (keyed row_id i) t.handoffs (row ∷ []),
    );
    fresh = λ i h.
        ground (arith, inv.fresh i, count_where-append (keyed row_id i) t.handoffs (row ∷ []));
    one_capability = inv.one_capability;
    coherence = inserted_coherent;
  }

  pub insert_handoff-Inv :
      (id : ℕ) (t' : Tables) → insert_handoff p key trust now t ≡ some (id, t') → Inv t'
  unfolding insert_handoff
  insert_handoff-Inv id t' h = elim (Bool-cases (has_room t)) [
    | inl e ↦
        subst Inv (ap (λ (r : ℕ × Tables). r.1) (some-injective _ _ (rw e at h))) (inserted-Inv _)
    | inr e ↦ absurd (cc (rw e at h))
  ]

-- A change of labels changes no id, status or claimant.
pub relabelled-Inv :
    (t : Tables) (test : Handoff → Bool) (trust : SourceTrust) (q : List Quarantined)
    → Inv t
    → Inv (record t {
      handoffs = update_where test (λ h. record h { source_trust = trust }) t.handoffs;
      quarantine = q;
    })
relabelled-Inv t test trust q inv = record {
  unique = λ i. ground (
    arith,
    inv.unique i,
    count_where-update_where row_id test (λ h. record h { source_trust = trust }) i t.handoffs
        (λ h. refl),
  );
  fresh = λ i h. ground (
    arith,
    inv.fresh i h,
    count_where-update_where row_id test (λ h. record h { source_trust = trust }) i t.handoffs
        (λ h. refl),
  );
  one_capability = inv.one_capability;
  coherence = λ i. ground (
    arith,
    inv.coherence i,
    find-update_where row_id test (λ h. record h { source_trust = trust }) i t.handoffs (λ h. refl),
  );
}
