-- ===== src/Handoffs/Invariant/Ending.antt =====
-- `clear_handoff`, `run_cancel_handoff` and `run_recover_orphaned_handoff` keep the invariant.
use mathlib.Core.Option.{some-injective}
use mathlib.Core.Path.{subst, sym}
use mathlib.Core.Logic.{inl, inr}
use bridge_db.Prelude.{
  ℕ, String, ◌≡◌, ◌≢◌, refl, Bool, true, false, Option, none, some, List, arith, count_where,
  update_where, find-update_where, find-update_where_other, nat_beq, nat_beq_iff, option_map,
  if◌then◌else◌, count_where-update_where, find_of_count_where, Bool-cases,
}
use bridge_db.Models.{Caller, caller_eq}
use bridge_db.Handoffs.Tables.{Status, Handoff, Capability, Tables, handoff, capability_of, cleared}
use bridge_db.Handoffs.Transaction.{
  completable, clear_row, consumable, consume_row, completed_tables,
}
use bridge_db.Handoffs.Ceremonies.{Ceremony, cancellable, end_row, cancelled_tables}
use bridge_db.Handoffs.Recover.{retire, retirable, retire_row, recovered_tables}
use bridge_db.Platform.{Platform}
use bridge_db.Handoffs.Invariant.Defs.{row_id, owner_id, coherent, by_status, Inv}

cancelled_cleared :
    (x : Handoff) (c : Option Capability) (id : ℕ) (status : Status) (now : String)
    → status ≢ cleared
    → coherent (some x) c ≡ true
    → cancellable id status x ≡ true
    → by_status cleared (end_row now x) c ≡ true
cancelled_cleared x none id status now u h e = ground arith
cancelled_cleared x (some c) id status now u h e = ground arith

cancelled_row :
    (o : Option Handoff) (c : Option Capability) (id : ℕ) (status : Status) (now : String)
    → status ≢ cleared
    → coherent o c ≡ true
    → coherent (option_map (λ x. if cancellable id status x then end_row now x else x) o) c ≡ true
cancelled_row none none id status now u h = refl
cancelled_row none (some c) id status now u h = cc
cancelled_row (some x) c id status now u h = elim (Bool-cases (cancellable id status x)) [
  | inr e ↦ rw e h
  | inl e ↦ rw e (cancelled_cleared x c id status now u h e)
]

-- The claim and its capability end together, whichever way.
module _ (t : Tables) (inv : Inv t) (id : ℕ) (caller : Caller) (now : String)
    (spent : Capability → Bool) (spend : Capability → Capability)
    (owned : (c : Capability) → spent c ≡ true → c.handoff_id ≡ id)
    (same : (c : Capability) → (spend c).handoff_id ≡ c.handoff_id)
    (ends : (h : Handoff) (c : Capability)
      → spent c ≡ true
      → by_status cleared h (some (spend c)) ≡ true) where
  -- the row and the capability that stand under an id after the end of the claim
  abbrev after : ℕ → Bool
  after i =
      coherent (handoff i (update_where (completable id caller) (clear_row now) t.handoffs))
        (capability_of i (update_where spent spend t.capabilities))

  own_coherent :
      (x : Handoff) (c : Capability)
      → handoff id t.handoffs ≡ some x
      → completable id caller x ≡ true
      → capability_of id t.capabilities ≡ some c
      → spent c ≡ true
      → after id ≡ true
  own_coherent x c found ok held live =
      rw
        (
          find-update_where row_id (completable id caller) (clear_row now) id t.handoffs
              (λ y. refl),
          find-update_where owner_id spent spend id t.capabilities same,
          found,
          held,
          ok,
          live,
        )
        (ends (clear_row now x) c live)

  other_coherent : (i : ℕ) → nat_beq id i ≡ false → after i ≡ true
  other_coherent i e =
      rw
        (
          find-update_where_other row_id (completable id caller) (clear_row now) id i t.handoffs
              (λ y. refl) (λ y q. ground arith) e,
          find-update_where_other owner_id spent spend id i t.capabilities same owned e,
        )
        (inv.coherence i)

  ended_coherent :
      (i : ℕ)
      → count_where (completable id caller) t.handoffs ≡ 1
      → count_where spent t.capabilities ≡ 1
      → after i ≡ true
  ended_coherent i h k =
      let (x, found, ok) =
        find_of_count_where row_id (completable id caller) id t.handoffs (λ y e. ground arith)
          (inv.unique id) (omega arith) in
      let (c, held, live) =
        find_of_count_where owner_id spent id t.capabilities owned (inv.one_capability id)
          (omega arith) in
      elim (Bool-cases (nat_beq id i)) [
        | inl e ↦
            subst (λ j. after j ≡ true) ((nat_beq_iff id i).0 e)
              (own_coherent x c found ok held live)
        | inr e ↦ other_coherent i e
      ]

  pub ended-Inv :
      (t' : Tables)
      → t'.handoffs ≡ update_where (completable id caller) (clear_row now) t.handoffs
      → t'.capabilities ≡ update_where spent spend t.capabilities
      → t'.next_id ≡ t.next_id
      → count_where (completable id caller) t.handoffs ≡ 1
      → count_where spent t.capabilities ≡ 1
      → Inv t'
  ended-Inv t' hs cs next h k = record {
    unique = λ i. rw hs (
        ground (
          arith,
          inv.unique i,
          count_where-update_where row_id (completable id caller) (clear_row now) i t.handoffs
              (λ y. refl),
        ));
    fresh = λ i e. rw hs (
        ground (
          arith,
          inv.fresh i,
          count_where-update_where row_id (completable id caller) (clear_row now) i t.handoffs
              (λ y. refl),
        ));
    one_capability = λ i. rw cs (
        ground (
          arith,
          inv.one_capability i,
          count_where-update_where owner_id spent spend i t.capabilities same,
        ));
    coherence = λ i. rw (hs, cs) (ended_coherent i h k);
  }

pub complete-Inv :
    (t : Tables) (id : ℕ) (hash : String) (caller : Caller) (name now at : String) (seen : Handoff)
    → Inv t
    → count_where (completable id caller) t.handoffs ≡ 1
    → count_where (consumable id hash) t.capabilities ≡ 1
    → Inv (completed_tables id hash caller name now at seen t)
complete-Inv t id hash caller name now at seen inv h k =
    ended-Inv t inv id caller now (consumable id hash) (consume_row at) (λ c e. ground arith)
      (λ c. refl) (λ r c e. ground arith) _ refl refl refl h k

pub recover-Inv :
    (pf : Platform) (env : Ceremony) (t : Tables) (id : ℕ) (reason : String) (row : Handoff)
    (held : Option Capability) (claimant : Caller) (at : String) (capabilities : List Capability)
    → Inv t
    → (held ≡ none → capability_of id t.capabilities ≡ none)
    → count_where (completable id claimant) t.handoffs ≡ 1
    → retire id held at t.capabilities ≡ some capabilities
    → Inv (recovered_tables pf env id reason row held claimant capabilities t)
recover-Inv pf env t id reason row none claimant at capabilities inv same h e =
    let (x, found, ok) =
      find_of_count_where row_id (completable id claimant) id t.handoffs (λ y q. ground arith)
        (inv.unique id) (omega arith) in
    absurd (ground (arith, found, ok, same refl, inv.coherence id))
recover-Inv pf env t id reason row (some c) claimant at capabilities inv same h e =
    elim (Bool-cases (nat_beq (count_where (retirable id c.session_id) t.capabilities) 1)) [
      | inl q ↦
          ended-Inv t inv id claimant env.db_now (retirable id c.session_id) (retire_row at)
            (λ c e. ground arith) (λ c. refl) (λ r c e. ground arith) _ refl
            (sym (some-injective _ _ (rw q at e))) refl h (ground arith)
      | inr q ↦ absurd (cc (rw q at e))
    ]

-- A cancelled row is pending, since an active one has a claimant.
module _ (t : Tables) (inv : Inv t) (id : ℕ) (status : Status) (now : String) where
  cancel_coherent :
      (i : ℕ)
      → status ≢ cleared
      → coherent
          (handoff i (update_where (cancellable id status) (end_row now) t.handoffs))
          (capability_of i t.capabilities)
        ≡ true
  cancel_coherent i unended =
      rw (find-update_where row_id (cancellable id status) (end_row now) i t.handoffs (λ y. refl)) (
        cancelled_row (handoff i t.handoffs) (capability_of i t.capabilities) id status now unended
          (inv.coherence i))

pub cancel-Inv :
    (pf : Platform) (env : Ceremony) (t : Tables) (id : ℕ) (reason : String) (row : Handoff)
    → Inv t
    → row.status ≢ cleared
    → Inv (cancelled_tables pf env id reason row t)
cancel-Inv pf env t id reason row inv unended = record {
  unique = λ i. ground (
    arith,
    inv.unique i,
    count_where-update_where row_id (cancellable id row.status) (end_row env.db_now) i t.handoffs
        (λ y. refl),
  );
  fresh = λ i e. ground (
    arith,
    inv.fresh i,
    count_where-update_where row_id (cancellable id row.status) (end_row env.db_now) i t.handoffs
        (λ y. refl),
  );
  one_capability = inv.one_capability;
  coherence = λ i. cancel_coherent t inv id row.status env.db_now i unended;
}
