-- ===== src/Handoffs/Outcomes/Winning.antt =====
-- What a claim that `pick_up_handoff` answers with stands for.
use mathlib.Core.Logic.{inl, inr}
use mathlib.Core.Path.{subst, sym, ap, ◌∙◌}
use bridge_db.Prelude.{
  at_most_one, ℕ, String, ◌≡◌, refl, true, Option, none, some, List, [], ◌∷◌, ◌!=◌, eq_self, find,
  exists, leb, count_where, arith, Bool-cases, ◌==◌, nat_eq, find_of_count_where, find-update_where,
  find-append, keyed,
}
use bridge_db.Models.{Caller, SourceTrust, operator, agent, ingested, trust_eq, trust_beq_iff}
use bridge_db.Exec.{Result, ok, err, bind_result}
use bridge_db.Platform.{Platform}
use bridge_db.Conflicts.{Ledger}
use bridge_db.Handoffs.Tables.{
  Handoff, Capability, Tables, pending, status_eq, status_beq_iff, handoff, capability_of,
}
use bridge_db.Handoffs.Store.{Store, Call}
use bridge_db.Handoffs.Claim.{
  claim, Mint, Claim, claimable, claimed, claim_row, claim_result, minted, bearer,
  insert_capability, staged_receipt, win, lose_race, race_receipt, report_race, refuse_stale,
  stale_receipt, report_stale, refuse_untrusted, decide, with_row, read_and_claim, pick_up_handoff,
  claimants, clashes,
}
use bridge_db.Handoffs.Invariant.{row_id, owner_id, Inv, uncovered}
use bridge_db.Handoffs.Outcomes.Authority.{authorised-ok}
use mathlib.Core.Option.{some-injective}
use bridge_db.Audit.{Trail}
use bridge_db.Auth.{require_bound_caller}

abbrev answered_token : Result Claim → String
answered_token (ok c) = c.completion_capability
answered_token (err e) = ""

module _ (pf : Platform) (call : Call) (caller : Caller) (id : ℕ) (m : Mint) where
  -- A claim of the tables `t` that led to `t'`.
  pub record Won (t t' : Tables) (c : Claim) : Type 0 where
    pub row : Handoff
    pub stood : handoff id t.handoffs ≡ some row
    pub was_pending : row.status ≡ pending
    pub was_trusted : row.source_trust ≡ operator
    pub stands : handoff id t'.handoffs ≡ some (claim_row caller call.db_now row)
    pub issued : capability_of id t'.capabilities ≡ some (minted pf id caller m)
    pub token : c.completion_capability ≡ bearer m

  reported :
      (row : Handoff) (c : Claim) (s : Store) (o : Option ℕ) (l : Ledger)
      → (bind_result
          (staged_receipt s o l).0
          (report_race pf call caller id row)
          (staged_receipt s o l).1).0
        ≡ ok c
      → ⊥
  unfolding report_race
  reported row c s none l h = cc
  reported row c s (some r) l h = cc

  lose_race-fails :
      (row : Handoff) (s : Store) (c : Claim) → (lose_race pf call caller id row s).0 ≡ ok c → ⊥
  unfolding lose_race
  lose_race-fails row s c h =
      let written = race_receipt pf call caller id row s.tables s.tables.conflicts in
      reported row c s written.0 written.1 h

  told_stale :
      (row : Handoff) (c : Claim) (s : Store) (o : Option ℕ) (l : Ledger)
      → (bind_result
          (staged_receipt s o l).0
          (report_stale pf call caller id row)
          (staged_receipt s o l).1).0
        ≡ ok c
      → ⊥
  unfolding report_stale
  told_stale row c s none l h = cc
  told_stale row c s (some r) l h = cc

  refuse_stale-fails :
      (row : Handoff) (s : Store) (c : Claim) → (refuse_stale pf call caller id row s).0 ≡ ok c → ⊥
  unfolding refuse_stale
  refuse_stale-fails row s c h =
      let written = stale_receipt pf call caller id row s.tables.conflicts in
      told_stale row c s written.0 written.1 h

  refuse_untrusted-fails :
      (row : Handoff) (s : Store) (c : Claim)
      → (refuse_untrusted pf call caller id row s).0 ≡ ok c
      → ⊥
  unfolding refuse_untrusted
  refuse_untrusted-fails row s c h = cc

  issued_capability :
      (before after : List Capability)
      → find (keyed owner_id id) before ≡ none
      → insert_capability (minted pf id caller m) before ≡ some after
      → capability_of id after ≡ some (minted pf id caller m)
  unfolding insert_capability
  issued_capability before after none_yet e =
      elim (Bool-cases (exists (clashes (minted pf id caller m)) before)) [
        | inl q ↦ absurd (cc (rw q at e))
        | inr q ↦
            subst (λ cs. capability_of id cs ≡ some (minted pf id caller m))
              (some-injective _ _ (rw q at e))
              (find-append (keyed owner_id id) before (minted pf id caller m ∷ [])
                ∙ rw (none_yet, eq_self id) refl)
      ]

  token_of :
      (row : Handoff) (c : Claim)
      → ok (claim_result pf call caller id row m) ≡ ok c
      → c.completion_capability ≡ bearer m
  token_of row c h = ap answered_token (sym h)

  win-Won :
      (row : Handoff) (s : Store) (c : Claim) (o : Option (List Capability))
      → Inv s.tables
      → count_where (claimable id operator) s.tables.handoffs ≡ 1
      → insert_capability (minted pf id caller m) s.tables.capabilities ≡ o
      → (win pf call caller id row m (claimed id operator caller call.db_now s.tables) o s).0 ≡ ok c
      → Won s.tables
          (win pf call caller id row m
            (claimed id operator caller call.db_now s.tables)
            o
            s).1.tables
          c
  win-Won row s c none inv one e h = absurd (cc)
  win-Won row s c (some cs) inv one e h =
      let (x, found, open_row) =
        find_of_count_where row_id (claimable id operator) id s.tables.handoffs
          (λ y q. ground arith) (inv.unique id) (omega arith) in
      record {
        row = x;
        stood = found;
        was_pending = ground (arith, status_beq_iff x.status pending);
        was_trusted = ground (arith, trust_beq_iff x.source_trust operator);
        stands =
            find-update_where row_id (claimable id operator) (claim_row caller call.db_now) id
              s.tables.handoffs (λ y. refl)
            ∙ rw (found, open_row) refl;
        issued =
            issued_capability s.tables.capabilities cs
              (uncovered s.tables inv id caller call.db_now (minted pf id caller m) x found
                open_row)
              e;
        token = token_of row c h;
      }

  commit-Won :
      (row : Handoff) (s : Store) (c : Claim) (trust : SourceTrust)
      → trust ≡ operator
      → Inv s.tables
      → count_where (claimable id trust) s.tables.handoffs ≡ 1
      → (win pf call caller id row m
          (claimed id trust caller call.db_now s.tables)
          (insert_capability (minted pf id caller m) s.tables.capabilities)
          s).0
        ≡ ok c
      → Won s.tables
          (win pf call caller id row m
            (claimed id trust caller call.db_now s.tables)
            (insert_capability (minted pf id caller m) s.tables.capabilities)
            s).1.tables
          c
  commit-Won row s c operator trusted inv one h =
      win-Won row s c (insert_capability (minted pf id caller m) s.tables.capabilities) inv one refl
        h
  commit-Won row s c agent trusted inv one h = absurd (ground arith)
  commit-Won row s c ingested trusted inv one h = absurd (ground arith)

  claim-Won :
      (row : Handoff) (s : Store) (c : Claim)
      → row.source_trust ≡ operator
      → Inv s.tables
      → (claim pf call caller id row m s).0 ≡ ok c
      → Won s.tables (claim pf call caller id row m s).1.tables c
  unfolding claim
  claim-Won row s c trusted inv h =
      let rowcount = count_where (claimable id row.source_trust) s.tables.handoffs in
      elim (Bool-cases (leb rowcount 1)) [
        | inr few ↦ absurd (cc (rw few at h))
        | inl few ↦ elim (Bool-cases (rowcount == 0)) [
          | inl zero ↦ absurd (lose_race-fails row s c (rw (few, zero) at h))
          | inr some_row ↦
              rw (few, some_row)
                (commit-Won row s c row.source_trust trusted inv (at_most_one rowcount few some_row)
                  (rw (few, some_row) at h))
        ]
      ]

  decide-Won :
      (row : Handoff) (s : Store) (c : Claim)
      → Inv s.tables
      → (decide pf call caller id m row s).0 ≡ ok c
      → Won s.tables (decide pf call caller id m row s).1.tables c
  decide-Won row s c inv h = elim (Bool-cases (row.status != pending)) [
    | inl stale ↦ absurd (refuse_stale-fails row s c (rw stale at h))
    | inr fresh ↦ elim (Bool-cases (row.source_trust != operator)) [
      | inl mortal ↦ absurd (refuse_untrusted-fails row s c (rw (fresh, mortal) at h))
      | inr trusted ↦
          rw (fresh, trusted)
            (claim-Won row s c (ground (arith, trust_beq_iff row.source_trust operator)) inv
              (rw (fresh, trusted) at h))
    ]
  ]

  with_row-Won :
      (o : Option Handoff) (s : Store) (c : Claim)
      → Inv s.tables
      → (with_row pf call caller id m o s).0 ≡ ok c
      → Won s.tables (with_row pf call caller id m o s).1.tables c
  with_row-Won none s c inv h = absurd (cc)
  with_row-Won (some row) s c inv h = decide-Won row s c inv h

  start-Won :
      (between : Tables → Tables) (s0 s : Store) (c : Claim)
      → s0.tables ≡ s.tables
      → Inv (between s.tables)
      → (read_and_claim pf call caller id between m s0).0 ≡ ok c
      → Won (between s.tables) (read_and_claim pf call caller id between m s0).1.tables c
  start-Won between s0 s c same inv h =
      subst (λ t. Won (between t) (read_and_claim pf call caller id between m s0).1.tables c) same
        (with_row-Won (handoff id s0.tables.handoffs) (record s0 { tables = between s0.tables }) c
          (subst (λ t. Inv (between t)) (sym same) inv) h)

  -- Where the invariant holds of the tables that the claim is committed on and `pick_up_handoff`
  -- answers with a claim, the handoff was pending with the label
  -- "operator" in the tables that the claim was committed on, which other connections may have
  -- changed since the row was read; afterwards the caller holds the claim, the capability under the handoff's id
  -- is the one of the token in the answer, and the caller may claim and is bound by a credential that the gate accepts.
  pub pick_up_handoff-Won :
      (between : Tables → Tables) (s : Store) (c : Claim)
      → Inv (between s.tables)
      → (pick_up_handoff pf call caller id between m s).0 ≡ ok c
      → Won (between s.tables) (pick_up_handoff pf call caller id between m s).1.tables c
        × (claimants caller ≡ true)
        × ((before : Trail) × ((require_bound_caller call.settings call.conn caller
                "pick_up_handoff" before).0
              ≡ ok tt))
  unfolding pick_up_handoff
  pick_up_handoff-Won between s c inv h =
      let body = read_and_claim pf call caller id between m in
      let a = authorised-ok call caller "pick_up_handoff" body s c h in
      let ran : (body a.start).0 ≡ ok c = sym (ap (λ (r : Result Claim × Store). r.0) a.runs) ∙ h in
      let claimed_now = start-Won between a.start s c a.same_tables inv ran in
      (
        subst (λ (r : Result Claim × Store). Won (between s.tables) r.1.tables c) (sym a.runs)
            claimed_now,
        a.may_claim,
        (a.before, a.is_bound),
      )
