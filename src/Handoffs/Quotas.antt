-- ===== src/Handoffs/Quotas.antt =====
-- The quotas of the handoff table over whole runs of the protocol.
use mathlib.Core.Option.{some-injective}
use mathlib.Core.Path.{subst, ap}
use mathlib.Core.Logic.{inl, inr}
use bridge_db.Prelude.{
  ℕ, ◌≤◌, String, ◌≡◌, refl, Bool, true, Option, some, List, [], ◌∷◌, arith, update_where,
  count_where, count_where-append, length, length-append, Bool-cases,
}
use bridge_db.Models.{SourceTrust, operator}
use bridge_db.Platform.{Platform}
use bridge_db.Handoffs.Tables.{Handoff, Tables}
use bridge_db.Handoffs.Create.{
  Payload, insert_handoff, has_room, is_open, new_handoff, open_quota, total_rows_quota,
}
use bridge_db.Handoffs.Claim.{claimable, claim_row}
use bridge_db.Handoffs.Transaction.{completable, clear_row}
use bridge_db.Handoffs.Ceremonies.{promotable, promote_row, cancellable, end_row}
use bridge_db.Handoffs.Quarantine.{quarantinable, quarantine_row, restorable}
use bridge_db.Handoffs.Protocol.{
  Step, Run, create, claim, complete, promote, cancel, recover, quarantine, restore, receipt, here,
  after,
}

-- at most 100 open handoffs and 10000 rows
pub record WithinQuotas (hs : List Handoff) : Type 0 where
  pub few_open : count_where is_open hs ≤ open_quota
  pub few_rows : length hs ≤ total_rows_quota

length-update_where :
    (test : Handoff → Bool) (change : Handoff → Handoff) (hs : List Handoff)
    → length (update_where test change hs) ≡ length hs
length-update_where test change [] = refl
length-update_where test change (h ∷ hs) = omega (arith, length-update_where test change hs)

open_after_update :
    (test : Handoff → Bool) (change : Handoff → Handoff) (hs : List Handoff)
    → ((h : Handoff) → test h ≡ true → is_open (change h) ≡ true → is_open h ≡ true)
    → count_where is_open (update_where test change hs) ≤ count_where is_open hs
open_after_update test change [] p = omega arith
open_after_update test change (h ∷ hs) p = ground (arith, p h, open_after_update test change hs p)

updated :
    (test : Handoff → Bool) (change : Handoff → Handoff) (hs : List Handoff)
    → ((h : Handoff) → test h ≡ true → is_open (change h) ≡ true → is_open h ≡ true)
    → WithinQuotas hs
    → WithinQuotas (update_where test change hs)
updated test change hs p q = record {
  few_open = omega (arith, q.few_open, open_after_update test change hs p);
  few_rows = omega (arith, q.few_rows, length-update_where test change hs);
}

created :
    (p : Payload) (key : Option String) (trust : SourceTrust) (now : String) (id : ℕ) (s t : Tables)
    → insert_handoff p key trust now s ≡ some (id, t)
    → WithinQuotas t.handoffs
unfolding insert_handoff
created p key trust now id s t e = elim (Bool-cases (has_room s)) [
  | inl q ↦
      subst (λ (u : Tables). WithinQuotas u.handoffs)
        (ap (λ (r : ℕ × Tables). r.1) (some-injective _ _ (rw q at e)))
        (record {
          few_open = ground (
            arith,
            count_where-append is_open s.handoffs (new_handoff s.next_id p key trust now ∷ []),
          );
          few_rows =
              ground (arith, length-append s.handoffs (new_handoff s.next_id p key trust now ∷ []));
        })
  | inr q ↦ absurd (cc (rw q at e))
]

module _ (pf : Platform) where
  Step-WithinQuotas :
      {s t : Tables} → Step pf s t → WithinQuotas s.handoffs → WithinQuotas t.handoffs
  Step-WithinQuotas (create p key trust now id _ e) q = created p key trust now id _ _ e
  Step-WithinQuotas (claim id caller m now _ _ _ _) q =
      updated (claimable id operator) (claim_row caller now) _ (λ h p o. ground arith) q
  Step-WithinQuotas (complete id _ caller _ now _ _ _ _ _ _) q =
      updated (completable id caller) (clear_row now) _ (λ h p o. ground arith) q
  Step-WithinQuotas (promote id trust _) q =
      updated (promotable id trust) promote_row _ (λ h p o. o) q
  Step-WithinQuotas (cancel env id reason row u _) q =
      updated (cancellable id row.status) (end_row env.db_now) _ (λ h p o. ground arith) q
  Step-WithinQuotas (recover env id _ _ _ caller _ _ _ _ _) q =
      updated (completable id caller) (clear_row env.db_now) _ (λ h p o. ground arith) q
  Step-WithinQuotas (quarantine id _ _ _) q =
      updated (quarantinable id) quarantine_row _ (λ h p o. o) q
  Step-WithinQuotas (restore id _ _) q = updated (restorable id) promote_row _ (λ h p o. o) q
  Step-WithinQuotas (receipt l) q = q

  -- In any run of the protocol from tables within both quotas, at most 100 handoffs are open and
  -- at most 10000 rows stand in the table.
  pub Run-WithinQuotas :
      {s t : Tables} → Run pf s t → WithinQuotas s.handoffs → WithinQuotas t.handoffs
  Run-WithinQuotas here q = q
  Run-WithinQuotas (after p st) q = Step-WithinQuotas st (Run-WithinQuotas p q)
