-- ===== src/Handoffs/Lifecycle.antt =====
-- What the protocol does to one handoff over time, and who may hold a claim.
use mathlib.Core.Option.{some-injective}
use mathlib.Core.Path.{subst, ap, ◌∙◌}
use mathlib.Core.Logic.{inl, inr}
use bridge_db.Prelude.{
  ℕ, ◌≤◌, String, ◌≡◌, refl, Bool, true, Option, some, List, [], ◌∷◌, arith, update_where,
  Bool-cases, keyed, find-append, find-update_where, option_map, if◌then◌else◌,
}
use bridge_db.Models.{SourceTrust, operator, agent, ingested, trust_eq, trust_beq_iff}
use bridge_db.Platform.{Platform}
use bridge_db.Handoffs.Tables.{
  Handoff, Tables, cleared, status_rank, handoff, status_eq, status_beq_iff,
}
use bridge_db.Handoffs.Create.{Payload, insert_handoff, has_room, new_handoff}
use bridge_db.Handoffs.Claim.{claimable, claim_row}
use bridge_db.Handoffs.Transaction.{completable, clear_row}
use bridge_db.Handoffs.Ceremonies.{promotable, promote_row, cancellable, end_row}
use bridge_db.Handoffs.Quarantine.{quarantinable, quarantine_row, restorable}
use bridge_db.Handoffs.Invariant.{row_id}
use bridge_db.Handoffs.Protocol.{
  Step, Run, create, claim, complete, promote, cancel, recover, quarantine, restore, receipt, here,
  after,
}

-- A handoff and the same handoff later on.
pub record Later (h h' : Handoff) : Type 0 where
  pub ranks : status_rank h.status ≤ status_rank h'.status
  pub final : h.status ≡ cleared → h' ≡ record h { source_trust = h'.source_trust }
  pub agent_final : h.status ≡ cleared → h.source_trust ≡ agent → h' ≡ h
  pub same_name : h'.project_name ≡ h.project_name
  pub same_phase : h'.phase ≡ h.phase

Later-refl : (h : Handoff) → Later h h
Later-refl h = record {
  ranks = omega arith;
  final = λ _. refl;
  agent_final = λ _ _. refl;
  same_name = refl;
  same_phase = refl;
}

Later-trans : (a b c : Handoff) → Later a b → Later b c → Later a c
Later-trans a b c p q = record {
  ranks = omega (arith, p.ranks, q.ranks);
  final = λ e.
      q.final (ap (λ (h : Handoff). h.status) (p.final e) ∙ e)
      ∙ ap (λ (h : Handoff). record h { source_trust = c.source_trust }) (p.final e);
  agent_final = λ e l.
      let same = p.agent_final e l in
      q.agent_final (ap (λ (h : Handoff). h.status) same ∙ e)
        (ap (λ (h : Handoff). h.source_trust) same ∙ l)
      ∙ same;
  same_name = q.same_name ∙ p.same_name;
  same_phase = q.same_phase ∙ p.same_phase;
}

-- The row that stands under the same id afterwards.
abbrev pub Continues : ℕ → Handoff → List Handoff → Type 0
Continues i h hs = (h' : Handoff) × (handoff i hs ≡ some h') × Later h h'

updated :
    (test : Handoff → Bool) (change : Handoff → Handoff) (i : ℕ) (hs : List Handoff) (h : Handoff)
    → ((x : Handoff) → (change x).id ≡ x.id)
    → ((x : Handoff) → test x ≡ true → Later x (change x))
    → handoff i hs ≡ some h
    → Continues i h (update_where test change hs)
updated test change i hs h same p e =
    let found =
      find-update_where row_id test change i hs same
      ∙ ap (option_map (λ x. if test x then change x else x)) e in
    elim (Bool-cases (test h)) [
      | inl q ↦ (change h, found ∙ rw q refl, p h q)
      | inr q ↦ (h, found ∙ rw q refl, Later-refl h)
    ]

module _ (pf : Platform) where
  created :
      (p : Payload) (key : Option String) (trust : SourceTrust) (now : String) (id i : ℕ)
      (s t : Tables) (h : Handoff)
      → insert_handoff p key trust now s ≡ some (id, t)
      → handoff i s.handoffs ≡ some h
      → Continues i h t.handoffs
  unfolding insert_handoff
  created p key trust now id i s t h e found = elim (Bool-cases (has_room s)) [
    | inl q ↦
        subst (λ (u : Tables). Continues i h u.handoffs)
          (ap (λ (r : ℕ × Tables). r.1) (some-injective _ _ (rw q at e)))
          (
            h,
            find-append (keyed row_id i) s.handoffs (new_handoff s.next_id p key trust now ∷ [])
                ∙ rw found refl,
            Later-refl h,
          )
    | inr q ↦ absurd (cc (rw q at e))
  ]

  Step-Later :
      {s t : Tables} (i : ℕ) (h : Handoff)
      → Step pf s t
      → handoff i s.handoffs ≡ some h
      → Continues i h t.handoffs
  Step-Later i h (create p key trust now id _ e) found = created p key trust now id i _ _ h e found
  Step-Later i h (claim id caller m now _ _ _ _) found =
      updated (claimable id operator) (claim_row caller now) i _ h (λ x. refl)
        (λ x q. record {
          ranks = ground arith;
          final = λ r. absurd (ground arith);
          agent_final = λ r l. absurd (ground arith);
          same_name = refl;
          same_phase = refl;
        })
        found
  Step-Later i h (complete id _ caller _ now _ _ _ _ _ _) found =
      updated (completable id caller) (clear_row now) i _ h (λ x. refl)
        (λ x q. record {
          ranks = ground arith;
          final = λ r. absurd (ground arith);
          agent_final = λ r l. absurd (ground arith);
          same_name = refl;
          same_phase = refl;
        })
        found
  Step-Later i h (promote id trust _) found =
      updated (promotable id trust) promote_row i _ h (λ x. refl)
        (λ x q. record {
          ranks = omega arith;
          final = λ r. absurd (ground arith);
          agent_final = λ r l. absurd (ground arith);
          same_name = refl;
          same_phase = refl;
        })
        found
  Step-Later i h (cancel env id reason row u _) found =
      updated (cancellable id row.status) (end_row env.db_now) i _ h (λ x. refl)
        (λ x q. record {
          ranks = ground arith;
          final = λ r. absurd (u (ground (arith, status_beq_iff x.status row.status)));
          agent_final = λ r l. absurd (u (ground (arith, status_beq_iff x.status row.status)));
          same_name = refl;
          same_phase = refl;
        })
        found
  Step-Later i h (recover env id _ _ _ caller _ _ _ _ _) found =
      updated (completable id caller) (clear_row env.db_now) i _ h (λ x. refl)
        (λ x q. record {
          ranks = ground arith;
          final = λ r. absurd (ground arith);
          agent_final = λ r l. absurd (ground arith);
          same_name = refl;
          same_phase = refl;
        })
        found
  Step-Later i h (quarantine id _ _ _) found =
      updated (quarantinable id) quarantine_row i _ h (λ x. refl)
        (λ x q. record {
          ranks = omega arith;
          final = λ r. refl;
          agent_final = λ r l. absurd (ground (arith, trust_beq_iff x.source_trust operator));
          same_name = refl;
          same_phase = refl;
        })
        found
  Step-Later i h (restore id _ _) found =
      updated (restorable id) promote_row i _ h (λ x. refl)
        (λ x q. record {
          ranks = omega arith;
          final = λ r. refl;
          agent_final = λ r l. absurd (ground (arith, trust_beq_iff x.source_trust ingested));
          same_name = refl;
          same_phase = refl;
        })
        found
  Step-Later i h (receipt l) found = (h, found, Later-refl h)

  -- In any run of the protocol, the trust quarantine included, a handoff keeps its id, project name
  -- and phase and its status never goes back; once cleared nothing of it but its label changes
  -- again, and with the label "agent" nothing at all.
  pub Run-Later :
      {s t : Tables} (i : ℕ) (h : Handoff)
      → Run pf s t
      → handoff i s.handoffs ≡ some h
      → Continues i h t.handoffs
  Run-Later i h here found = (h, found, Later-refl h)
  Run-Later i h (after p st) found =
      let (mid, at_mid, first) = Run-Later i h p found in
      let (last, at_last, second) = Step-Later i mid st at_mid in
      (last, at_last, Later-trans h mid last first second)
