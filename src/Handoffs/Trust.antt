-- ===== src/Handoffs/Trust.antt =====
-- Which handoffs may be claimed: the trust gate over whole runs of the protocol.
use mathlib.Core.Option.{some-injective}
use mathlib.Core.Path.{subst, ap}
use mathlib.Core.Logic.{inl, inr}
use bridge_db.Prelude.{
  ℕ, String, ◌≡◌, refl, Bool, true, false, ◌||◌, Option, some, List, [], ◌∷◌, ◌++◌, arith, every,
  update_where, exists, ◌&&◌, is_none, Bool-cases, ◌==◌, nat_eq,
}
use bridge_db.Models.{SourceTrust, operator, ingested, trust_eq}
use bridge_db.Platform.{Platform}
use bridge_db.Handoffs.Tables.{Handoff, Quarantined, Tables, cleared, status_eq}
use bridge_db.Handoffs.Quarantine.{
  quarantinable, quarantine_row, quarantined_tables, restorable, is_quarantined, restore_image,
  restored_tables,
}
use bridge_db.Handoffs.Create.{Payload, insert_handoff, has_room, new_handoff}
use bridge_db.Handoffs.Claim.{claimable, claim_row}
use bridge_db.Handoffs.Transaction.{completable, clear_row}
use bridge_db.Handoffs.Ceremonies.{promotable, promote_row, cancellable, end_row}
use bridge_db.Handoffs.Protocol.{
  Step, Run, create, claim, complete, promote, cancel, recover, quarantine, restore, receipt, here,
  after,
}

-- whether the quarantine holds an image of a handoff, restored or not
abbrev pub has_image : ℕ → List Quarantined → Bool
has_image id = exists (λ (q : Quarantined). q.handoff_id == id)

-- a handoff that anyone ever claimed has the label "operator", or is cleared, is labelled
-- "ingested" and has its image in the quarantine
abbrev pub claimed_is_trusted : List Quarantined → Handoff → Bool
claimed_is_trusted qs h =
    is_none h.claimed_by
    || h.source_trust == operator
    || (h.status == cleared && h.source_trust == ingested && has_image h.id qs)

abbrev pub Trusted : Tables → Type 0
Trusted t = every (claimed_is_trusted t.quarantine) t.handoffs ≡ true

every-update_where :
    (ok ok' test : Handoff → Bool) (change : Handoff → Handoff) (hs : List Handoff)
    → ((h : Handoff) → ok h ≡ true → test h ≡ true → ok' (change h) ≡ true)
    → ((h : Handoff) → ok h ≡ true → test h ≡ false → ok' h ≡ true)
    → every ok hs ≡ true
    → every ok' (update_where test change hs) ≡ true
every-update_where ok ok' test change [] p n e = refl
every-update_where ok ok' test change (h ∷ hs) p n e =
    ground (arith, p h, n h, every-update_where ok ok' test change hs p n)

has_image-append :
    (id : ℕ) (qs : List Quarantined) (q : Quarantined)
    → has_image id (qs ++ q ∷ []) ≡ (has_image id qs || q.handoff_id == id)
has_image-append id [] q = ground arith
has_image-append id (p ∷ qs) q = ground (arith, has_image-append id qs q)

has_image-restored :
    (id i : ℕ) (now : String) (qs : List Quarantined)
    → has_image id (update_where (is_quarantined i) (restore_image now) qs) ≡ has_image id qs
has_image-restored id i now [] = refl
has_image-restored id i now (q ∷ qs) = ground (arith, has_image-restored id i now qs)

every-append :
    (ok : Handoff → Bool) (hs : List Handoff) (h : Handoff)
    → every ok hs ≡ true
    → ok h ≡ true
    → every ok (hs ++ h ∷ []) ≡ true
every-append ok [] h p q = ground arith
every-append ok (k ∷ ks) h p q = ground (arith, every-append ok ks h)

-- A change that keeps the quarantine, and that no claimed handoff loses its label by.
kept :
    (t : Tables) (test : Handoff → Bool) (change : Handoff → Handoff)
    → ((h : Handoff)
        → claimed_is_trusted t.quarantine h ≡ true
        → test h ≡ true
        → claimed_is_trusted t.quarantine (change h) ≡ true)
    → Trusted t
    → every (claimed_is_trusted t.quarantine) (update_where test change t.handoffs) ≡ true
kept t test change p =
    let ok = claimed_is_trusted t.quarantine in
    every-update_where ok ok test change t.handoffs p (λ h q n. q)

quarantined :
    (t : Tables) (id : ℕ) (image : Quarantined)
    → image.handoff_id ≡ id
    → Trusted t
    → Trusted (quarantined_tables id image t)
quarantined t id image same =
    every-update_where (claimed_is_trusted t.quarantine)
      (claimed_is_trusted (t.quarantine ++ image ∷ [])) (quarantinable id) quarantine_row t.handoffs
      (λ h q n. ground (arith, has_image-append h.id t.quarantine image))
      (λ h q n. ground (arith, has_image-append h.id t.quarantine image))

restored : (t : Tables) (id : ℕ) (now : String) → Trusted t → Trusted (restored_tables id now t)
restored t id now =
    every-update_where (claimed_is_trusted t.quarantine)
      (claimed_is_trusted (restored_tables id now t).quarantine) (restorable id) promote_row
      t.handoffs (λ h q n. ground arith)
      (λ h q n. ground (arith, has_image-restored h.id id now t.quarantine))

module _ (pf : Platform) where
  created :
      (p : Payload) (key : Option String) (trust : SourceTrust) (now : String) (id : ℕ)
      (s t : Tables)
      → insert_handoff p key trust now s ≡ some (id, t)
      → Trusted s
      → Trusted t
  unfolding insert_handoff
  created p key trust now id s t e all = elim (Bool-cases (has_room s)) [
    | inl q ↦ subst Trusted (ap (λ (r : ℕ × Tables). r.1) (some-injective _ _ (rw q at e))) (
        every-append (claimed_is_trusted s.quarantine) s.handoffs
          (new_handoff s.next_id p key trust now) all refl)
    | inr q ↦ absurd (cc (rw q at e))
  ]

  Step-Trusted : {s t : Tables} → Step pf s t → Trusted s → Trusted t
  Step-Trusted (create p key trust now id _ e) all = created p key trust now id _ _ e all
  Step-Trusted {s} (claim id caller m now _ _ _ _) all =
      kept s (claimable id operator) (claim_row caller now) (λ h p q. ground arith) all
  Step-Trusted {s} (complete id _ caller _ now _ _ _ _ _ _) all =
      kept s (completable id caller) (clear_row now) (λ h p q. ground arith) all
  Step-Trusted {s} (promote id trust _) all =
      kept s (promotable id trust) promote_row (λ h p q. ground arith) all
  Step-Trusted {s} (cancel env id reason row u _) all =
      kept s (cancellable id row.status) (end_row env.db_now) (λ h p q. ground arith) all
  Step-Trusted {s} (recover env id _ _ _ caller _ _ _ _ _) all =
      kept s (completable id caller) (clear_row env.db_now) (λ h p q. ground arith) all
  Step-Trusted {s} (quarantine id image same _) all = quarantined s id image same all
  Step-Trusted {s} (restore id now _) all = restored s id now all
  Step-Trusted (receipt l) all = all

  -- In any run of the protocol from tables where it holds, the trust quarantine included, every
  -- handoff that anyone ever claimed has the trust label "operator", or it is cleared, is labelled
  -- "ingested" and has its image in the quarantine.
  pub Run-Trusted : {s t : Tables} → Run pf s t → Trusted s → Trusted t
  Run-Trusted here all = all
  Run-Trusted (after p st) all = Step-Trusted st (Run-Trusted p all)
