-- ===== src/Handoffs/Refinement/Tools.antt =====
-- `create_handoff`, `pick_up_handoff` and `clear_handoff` as runs of the protocol.
use bridge_db.Prelude.{
  at_most_one, ℕ, String, ◌≡◌, refl, true, not, Option, none, some, List, leb, count_where, arith,
  if◌then◌else◌, ◌==◌, ◌!=◌, nat_eq,
}
use bridge_db.Models.{Caller, SourceTrust, operator, agent, ingested, trust_beq_iff, trust_eq}
use bridge_db.Exec.{Exec, raise_if, ◌>>◌}
use bridge_db.Errors.{not_a_claimant}
use bridge_db.Auth.{require_caller, require_bound_caller}
use bridge_db.Platform.{Platform}
use bridge_db.Handoffs.Tables.{Handoff, Capability, Tables, handoff, pending, status_eq}
use bridge_db.Handoffs.Store.{Store, Call, gate}
use bridge_db.Handoffs.Claim.{
  claim, Mint, claimants, claimable, claimed, minted, insert_capability, win, decide, refuse_stale,
  refuse_untrusted, lose_race, stale_receipt, race_receipt, report_race, report_stale, with_row,
  authorised, read_and_claim, pick_up_handoff, stage_conflict,
}
use bridge_db.Handoffs.Protocol.{Run, Step, here, append_run}
use bridge_db.Handoffs.Refinement.Composed.{
  Runs, gated, choose, checked, guarded, sequence, receipted,
}

pub authorised-Runs :
    {A : Type 0} (pf : Platform) (call : Call) (caller : Caller) (tool : String)
    (body : Exec Store A)
    → (claimants caller ≡ true → Runs pf body)
    → Runs pf (authorised call caller tool body)
unfolding authorised
authorised-Runs {A} pf call caller tool body p =
    let asked : Exec Store A = raise_if (not (claimants caller)) (not_a_claimant caller) >> body in
    let known : Exec Store A =
      gate (require_bound_caller call.settings call.conn caller tool) >> asked in
    sequence pf (gate (require_caller call.settings call.conn caller tool)) (λ _. known)
      (gated pf (require_caller call.settings call.conn caller tool))
      (λ _.
        sequence pf (gate (require_bound_caller call.settings call.conn caller tool)) (λ _. asked)
          (gated pf (require_bound_caller call.settings call.conn caller tool))
          (λ _.
            guarded pf (not (claimants caller)) (not_a_claimant caller) body
              (λ allowed. p (ground arith))))

module _ (pf : Platform) (call : Call) (caller : Caller) (id : ℕ) where
  report_race-Runs : (row : Handoff) (r : ℕ) → Runs pf (report_race pf call caller id row r)
  unfolding report_race
  report_race-Runs row r s = here

  report_stale-Runs : (row : Handoff) (r : ℕ) → Runs pf (report_stale pf call caller id row r)
  unfolding report_stale
  report_stale-Runs row r s = here

  lose_race-Runs : (row : Handoff) → Runs pf (lose_race pf call caller id row)
  unfolding lose_race
  lose_race-Runs row s =
      sequence pf (stage_conflict (race_receipt pf call caller id row s.tables))
        (report_race pf call caller id row)
        (receipted pf (race_receipt pf call caller id row s.tables)) (report_race-Runs row) s

  refuse_stale-Runs : (row : Handoff) → Runs pf (refuse_stale pf call caller id row)
  unfolding refuse_stale
  refuse_stale-Runs row =
      sequence pf (stage_conflict (stale_receipt pf call caller id row))
        (report_stale pf call caller id row) (receipted pf (stale_receipt pf call caller id row))
        (report_stale-Runs row)

  refuse_untrusted-Runs : (row : Handoff) → Runs pf (refuse_untrusted pf call caller id row)
  unfolding refuse_untrusted
  refuse_untrusted-Runs row s = here

  win-Runs :
      (row : Handoff) (m : Mint) (s : Store) (o : Option (List Capability))
      → insert_capability (minted pf id caller m) s.tables.capabilities ≡ o
      → claimants caller ≡ true
      → count_where (claimable id operator) s.tables.handoffs ≡ 1
      → Run pf s.tables
          (win pf call caller id row m
            (claimed id operator caller call.db_now s.tables)
            o
            s).1.tables
  win-Runs row m s none e allowed one = here
  win-Runs row m s (some cs) e allowed one =
      Run.after here (Step.claim id caller m call.db_now cs allowed one e)

  commit-Runs :
      (row : Handoff) (m : Mint) (s : Store) (trust : SourceTrust)
      → trust ≡ operator
      → claimants caller ≡ true
      → count_where (claimable id trust) s.tables.handoffs ≡ 1
      → Run pf s.tables
          (win pf call caller id row m
            (claimed id trust caller call.db_now s.tables)
            (insert_capability (minted pf id caller m) s.tables.capabilities)
            s).1.tables
  commit-Runs row m s operator trusted allowed one = win-Runs row m s _ refl allowed one
  commit-Runs row m s agent trusted allowed one = absurd (ground arith)
  commit-Runs row m s ingested trusted allowed one = absurd (ground arith)

  claim-Runs :
      (row : Handoff) (m : Mint)
      → row.source_trust ≡ operator
      → claimants caller ≡ true
      → Runs pf (claim pf call caller id row m)
  unfolding claim
  claim-Runs row m trusted allowed s =
      let t = s.tables in
      let rowcount = count_where (claimable id row.source_trust) t.handoffs in
      let won =
        win pf call caller id row m (claimed id row.source_trust caller call.db_now t)
          (insert_capability (minted pf id caller m) t.capabilities) in
      let lost = lose_race pf call caller id row in
      checked pf (leb rowcount 1) 1 "INV-1: handoff claim CAS must commit at most one winner"
        (if rowcount == 0 then lost else won) s
        (λ few.
          choose pf (rowcount == 0) lost won s (λ zero. lose_race-Runs row s)
            (λ found.
              commit-Runs row m s row.source_trust trusted allowed
                (at_most_one rowcount few found)))

  decide-Runs :
      (m : Mint) (row : Handoff)
      → claimants caller ≡ true
      → Runs pf (decide pf call caller id m row)
  decide-Runs m row allowed s =
      choose pf (row.status != pending) (refuse_stale pf call caller id row) _ s
        (λ _. refuse_stale-Runs row s)
        (λ _.
          choose pf (row.source_trust != operator) (refuse_untrusted pf call caller id row)
            (claim pf call caller id row m) s (λ _. refuse_untrusted-Runs row s)
            (λ e.
              claim-Runs row m (ground (arith, trust_beq_iff row.source_trust operator)) allowed s))

  with_row-Runs :
      (m : Mint) (o : Option Handoff)
      → claimants caller ≡ true
      → Runs pf (with_row pf call caller id m o)
  with_row-Runs m none allowed s = here
  with_row-Runs m (some row) allowed s = decide-Runs m row allowed s

  -- Whatever other connections commit between its read and its claim, as long as they follow the
  -- protocol, `pick_up_handoff` commits a run of the protocol.
  pub pick_up_handoff-Runs :
      (between : Tables → Tables) (m : Mint)
      → ((t : Tables) → Run pf t (between t))
      → (s : Store) → Run pf s.tables (pick_up_handoff pf call caller id between m s).1.tables
  unfolding pick_up_handoff
  pick_up_handoff-Runs between m others =
      authorised-Runs pf call caller "pick_up_handoff" (read_and_claim pf call caller id between m)
        (λ allowed s. append_run pf (others s.tables) (
          with_row-Runs m (handoff id s.tables.handoffs) allowed
            (record s { tables = between s.tables })))
