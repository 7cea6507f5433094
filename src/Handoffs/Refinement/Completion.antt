-- ===== src/Handoffs/Refinement/Completion.antt =====
-- `clear_handoff` as a run of the protocol.
use bridge_db.Prelude.{
  ℕ, String, ◌≡◌, Bool, true, false, not, Option, none, some, List, [], ◌∷◌, count_where, arith,
  if◌then◌else◌, ◌==◌, ◌!=◌, nat_eq,
}
use bridge_db.Models.{Caller}
use bridge_db.Exec.{Exec, ◌>>◌}
use bridge_db.Platform.{Platform}
use bridge_db.Handoffs.Tables.{Handoff, Capability, Tables}
use bridge_db.Handoffs.Store.{Store, Call, put_tables}
use bridge_db.Handoffs.Claim.{utc_text}
use bridge_db.Handoffs.Complete.{
  Clock, Cleared, Check, check_capability, join_by_token, completion_capability_hash, open_ids,
}
use bridge_db.Handoffs.Transaction.{
  locked_row, still_live, completable, consumable, completed_tables, refuse, refuse_race,
  without_capability, complete, commit_completion, settle, with_join, with_hash, with_arguments,
  clear_handoff, canonical, report, report_refusal, report_completed, foreign_event, is_empty,
}
use bridge_db.Handoffs.Protocol.{Run, Step, here, append_run}
use bridge_db.Handoffs.Refinement.Composed.{Runs, choose, checked}
use bridge_db.Handoffs.Refinement.Tools.{authorised-Runs}

module _ (pf : Platform) (call : Call) (caller : Caller) (name : String) where
  flagged :
      (b : Bool) (k : Exec Store Cleared)
      → Runs pf k
      → Runs pf (foreign_event pf call caller name b >> k)
  flagged true k p s = p _
  flagged false k p s = p s

  refuse-Runs :
      (check : Check) (id : ℕ) (session : Option String)
      → Runs pf (refuse pf call caller name check id session)
  unfolding refuse
  refuse-Runs check id session s =
      flagged check.foreign_claim (report_refusal pf call caller name check id session) (λ s. here)
        _

  race_refused-Runs :
      (id : ℕ) (session reason : String)
      → Runs pf (refuse_race pf call caller name id session reason)
  unfolding refuse
  race_refused-Runs id session reason s = here

  without_capability-Runs :
      (id : Option ℕ) (ids : List ℕ) → Runs pf (without_capability pf call caller name id ids)
  unfolding without_capability
  without_capability-Runs id [] s = here
  without_capability-Runs id (i ∷ is) s = refuse-Runs _ _ _ s

  report-Runs : (id : ℕ) (session : String) → Runs pf (report pf call caller name id session)
  report-Runs id session s =
      let left =
        open_ids name (canonical pf call caller name) (λ h. h.id != id) s.tables.handoffs in
      flagged (not (is_empty pf call caller name left))
        (report_completed pf call caller name id session left) (λ s. here) s

  commit-Runs :
      (id : ℕ) (hash session : String) (clock : Clock) (seen : Handoff) (s : Store)
      → still_live pf caller clock.locked (locked_row id hash s.tables) ≡ true
      → count_where (completable id caller) s.tables.handoffs ≡ 1
      → Run pf s.tables
          (commit_completion pf call caller name id hash session clock seen s.tables s).1.tables
  commit-Runs id hash session clock seen s live one =
      let t =
        completed_tables id hash caller name call.db_now (utc_text pf clock.stamped) seen
          s.tables in
      let told : Exec Store Cleared = report pf call caller name id session in
      let write : Exec Store Cleared = put_tables t >> told in
      checked pf (count_where (consumable id hash) s.tables.capabilities == 1) 14
        "INV-14: one completion consumes exactly one session capability" write s
        (λ spent.
          append_run pf
            (Run.after here (
              Step.complete id hash caller name call.db_now (utc_text pf clock.stamped) clock.locked
                seen live one (ground arith)))
            (report-Runs id session (record s { tables = t })))

  complete-Runs :
      (id : ℕ) (hash session : String) (clock : Clock) (seen : Handoff)
      → Runs pf (complete pf call caller name id hash session clock seen)
  unfolding complete
  complete-Runs id hash session clock seen s =
      let raced = refuse_race pf call caller name id session in
      let write = commit_completion pf call caller name id hash session clock seen s.tables in
      let one = count_where (completable id caller) s.tables.handoffs != 1 in
      choose pf (not (still_live pf caller clock.locked (locked_row id hash s.tables)))
        (raced "Handoff capability state changed before completion")
        (if one then raced "Handoff claim changed before completion" else write) s
        (λ _. race_refused-Runs id session "Handoff capability state changed before completion" s)
        (λ live.
          choose pf one (raced "Handoff claim changed before completion") write s
            (λ _. race_refused-Runs id session "Handoff claim changed before completion" s)
            (λ found. commit-Runs id hash session clock seen s (ground arith) (ground arith)))

  module _ (between : Tables → Tables) (others : (t : Tables) → Run pf t (between t)) where
    settle-Runs :
        (id : ℕ) (hash : String) (clock : Clock) (c : Capability) (h : Handoff) (o : Option Check)
        → Runs pf (settle pf call caller name between id hash clock c h o)
    settle-Runs id hash clock c h (some check) s = refuse-Runs check id (some c.session_id) s
    settle-Runs id hash clock c h none s =
        append_run pf (others s.tables)
          (complete-Runs id hash c.session_id clock h (record s { tables = between s.tables }))

    with_join-Runs :
        (id : ℕ) (hash : String) (clock : Clock) (o : Option (Capability × Handoff))
        → Runs pf (with_join pf call caller name between id hash clock o)
    with_join-Runs id hash clock none s = refuse-Runs _ id none s
    with_join-Runs id hash clock (some (c, h)) s =
        settle-Runs id hash clock c h
          (check_capability pf id name (canonical pf call caller name) caller clock.checked c h) s

    with_hash-Runs :
        (id : ℕ) (clock : Clock) (o : Option String)
        → Runs pf (with_hash pf call caller name between id clock o)
    with_hash-Runs id clock none s = refuse-Runs _ id none s
    with_hash-Runs id clock (some hash) s =
        with_join-Runs id hash clock (join_by_token hash s.tables.capabilities s.tables.handoffs) s

    with_arguments-Runs :
        (clock : Clock) (id : Option ℕ) (value : Option String)
        → Runs pf (with_arguments pf call caller name between clock id value)
    with_arguments-Runs clock (some id) (some value) s =
        with_hash-Runs id clock (completion_capability_hash pf value) s
    with_arguments-Runs clock (some id) none s =
        without_capability-Runs (some id)
          (open_ids name (canonical pf call caller name) (λ _. true) s.tables.handoffs) s
    with_arguments-Runs clock none value s =
        without_capability-Runs none
          (open_ids name (canonical pf call caller name) (λ _. true) s.tables.handoffs) s

    -- Whatever other connections commit between its check and its lock, as long as they follow the
    -- protocol, `clear_handoff` commits a run of the protocol.
    pub clear_handoff-Runs :
        (clock : Clock) (id : Option ℕ) (value : Option String) (s : Store)
        → Run pf s.tables (clear_handoff pf call caller name between clock id value s).1.tables
    unfolding clear_handoff
    clear_handoff-Runs clock id value =
        authorised-Runs pf call caller "clear_handoff"
          (with_arguments pf call caller name between clock id value)
          (λ _. with_arguments-Runs clock id value)
