-- ===== src/Witnesses/Handlers.antt =====
-- The handoff tools and ceremonies on the data of Witnesses/Data.antt.
use bridge_db.Json.{get}
use bridge_db.Prelude.{strip, lower, str, String, refl, some, none, ◌≡◌, true, ◌↔◌}
use bridge_db.Models.{Caller, operator}
use bridge_db.Exec.{ok}
use bridge_db.Audit.{Trail}
use bridge_db.Auth.{
  require_bound_caller, require_caller, reject_invalid_credential, bound_grant_state, get_principal,
  clamp_source_trust, auth_mode,
}
use bridge_db.Auth.Grants.{registered}
use bridge_db.Capacity.{require_utf8_bytes, require_combined_bytes, utf8_size}
use bridge_db.Handoffs.Create.{create_handoff, validate_handoff_payload, insert_handoff}
use bridge_db.Handoffs.Claim.{
  Claim, claimants, bearer, mint_hash, utc_text, authorised, claim, insert_capability,
  pick_up_handoff,
}
use bridge_db.Handoffs.Complete.{
  completion_capability_hash, well_formed, open_ids, newest_first, insert_ordered, join_by_token,
  check_capability,
}
use bridge_db.Handoffs.Transaction.{locked_row, still_live, complete, clear_handoff}
use bridge_db.Handoffs.Ceremonies.{
  row_fields, row_json, row_digest, run_promote_handoff, run_cancel_handoff,
}
use bridge_db.Handoffs.Recover.{run_recover_orphaned_handoff}
use bridge_db.Handoffs.Protocol.{Run}
use bridge_db.Handoffs.Invariant.{Inv, Run-Inv, empty-Inv}
use bridge_db.Handoffs.Payload.{Fits, validate_handoff_payload-ok_iff}
use bridge_db.Handoffs.Outcomes.Creating.{Creation, create_handoff-Creation}
use bridge_db.Handoffs.Outcomes.Promoting.{Promotion, run_promote_handoff-Promotion}
use bridge_db.Handoffs.Outcomes.Cancelling.{Cancelled, run_cancel_handoff-Cancelled}
use bridge_db.Handoffs.Outcomes.Recovering.{Recovered, run_recover_orphaned_handoff-Recovered}
use bridge_db.Handoffs.Refinement.Tools.{pick_up_handoff-Runs}
use bridge_db.Handoffs.Refinement.Completion.{clear_handoff-Runs}
use bridge_db.Handoffs.Outcomes.Winning.{Won, pick_up_handoff-Won}
use bridge_db.Handoffs.Outcomes.Finishing.{is_completed}
use bridge_db.Handoffs.Outcomes.Completing.{Completes, clear_handoff-Completes}
use bridge_db.Witnesses.Data.{
  platform, ai_call, cc_call, settings, payload, mint, clock, same, at_terminal, new_store,
  dispatched, approved, taken,
}
use bridge_db.Witnesses.Lives.{undisturbed, approved_run, taken_run}

create_handoff-Creation_example :
    Creation ai_call Caller.claude_ai payload operator new_store.tables
      (create_handoff ai_call Caller.claude_ai payload operator new_store).0
      (create_handoff ai_call Caller.claude_ai payload operator new_store).1.tables
create_handoff-Creation_example =
    create_handoff-Creation ai_call Caller.claude_ai payload operator new_store

run_promote_handoff-Promotion_example :
    Promotion platform
      (at_terminal "y")
      1
      dispatched.tables
      (run_promote_handoff platform (at_terminal "y") 1 dispatched).0
      (run_promote_handoff platform (at_terminal "y") 1 dispatched).1.tables
run_promote_handoff-Promotion_example =
    run_promote_handoff-Promotion platform (at_terminal "y") 1 dispatched

run_cancel_handoff-Cancelled_example :
    Cancelled platform
      (at_terminal "cancel")
      1
      "stale"
      approved.tables
      (run_cancel_handoff platform (at_terminal "cancel") 1 "stale" approved).0
      (run_cancel_handoff platform (at_terminal "cancel") 1 "stale" approved).1.tables
run_cancel_handoff-Cancelled_example =
    run_cancel_handoff-Cancelled platform (at_terminal "cancel") 1 "stale" approved

pick_up_handoff-Runs_example :
    Run platform approved.tables
      (pick_up_handoff platform cc_call Caller.cc 1 same mint approved).1.tables
pick_up_handoff-Runs_example =
    pick_up_handoff-Runs platform cc_call Caller.cc 1 same mint undisturbed approved

clear_handoff-Runs_example :
    Run platform taken.tables
      (clear_handoff platform cc_call Caller.cc "bridge-db" same clock
        (some 1)
        (some "hcap1.s1.k1")
        taken).1.tables
clear_handoff-Runs_example =
    clear_handoff-Runs platform cc_call Caller.cc "bridge-db" same undisturbed clock (some 1)
      (some "hcap1.s1.k1") taken

run_recover_orphaned_handoff-Recovered_example :
    Recovered platform
      (at_terminal "recover")
      1
      "lost"
      taken.tables
      (run_recover_orphaned_handoff platform (at_terminal "recover") 1 "lost" taken).0
      (run_recover_orphaned_handoff platform (at_terminal "recover") 1 "lost" taken).1.tables
run_recover_orphaned_handoff-Recovered_example =
    run_recover_orphaned_handoff-Recovered platform (at_terminal "recover") 1 "lost" taken

validate_handoff_payload-ok_iff_example :
    ((validate_handoff_payload payload tt).0 ≡ ok tt) ↔ Fits payload
validate_handoff_payload-ok_iff_example = validate_handoff_payload-ok_iff payload

approved_Inv : Inv approved.tables
approved_Inv = Run-Inv platform approved_run empty-Inv

taken_Inv : Inv taken.tables
taken_Inv = Run-Inv platform taken_run empty-Inv

abbrev claim_answer : Claim
claim_answer = record {
  handoff_id = 1;
  project_name = "bridge-db";
  canonical_key = none;
  source_trust = operator;
  claimed_by = Caller.cc;
  claim_session_id = "s1";
  completion_capability = "hcap1.s1.k1";
  capability_expires_at = "86407";
}

pick_up_answers :
    (pick_up_handoff platform cc_call Caller.cc 1 same mint approved).0 ≡ ok claim_answer
unfolding create_handoff require_bound_caller reject_invalid_credential bound_grant_state
    get_principal registered clamp_source_trust auth_mode validate_handoff_payload
    require_utf8_bytes require_combined_bytes utf8_size insert_handoff strip lower
    run_promote_handoff row_digest row_json row_fields pick_up_handoff authorised require_caller
    claim insert_capability bearer mint_hash utc_text get str
pick_up_answers = refl

pick_up_handoff-Won_example :
    Won platform cc_call Caller.cc 1 mint approved.tables taken.tables claim_answer
    × (claimants Caller.cc ≡ true)
    × ((before : Trail) × ((require_bound_caller settings cc_call.conn Caller.cc "pick_up_handoff"
            before).0
          ≡ ok tt))
pick_up_handoff-Won_example =
    pick_up_handoff-Won platform cc_call Caller.cc 1 mint same approved claim_answer approved_Inv
      pick_up_answers

clear_answers :
    is_completed
      (clear_handoff platform cc_call Caller.cc "bridge-db" same clock
        (some 1)
        (some "hcap1.s1.k1")
        taken).0
    ≡ true
unfolding create_handoff require_bound_caller reject_invalid_credential bound_grant_state
    get_principal registered clamp_source_trust auth_mode validate_handoff_payload
    require_utf8_bytes require_combined_bytes utf8_size insert_handoff strip lower
    run_promote_handoff row_digest row_json row_fields pick_up_handoff authorised require_caller
    claim insert_capability bearer mint_hash utc_text get clear_handoff completion_capability_hash
    well_formed open_ids newest_first insert_ordered join_by_token check_capability locked_row
    still_live complete
clear_answers = refl

clear_handoff-Completes_example :
    (hash : String) × (completion_capability_hash platform "hcap1.s1.k1" ≡ some hash)
    × Completes platform cc_call Caller.cc "bridge-db" 1 hash clock taken.tables
        (clear_handoff platform cc_call Caller.cc "bridge-db" same clock
          (some 1)
          (some "hcap1.s1.k1")
          taken).1.tables
clear_handoff-Completes_example =
    clear_handoff-Completes platform cc_call Caller.cc "bridge-db" same clock 1 "hcap1.s1.k1" taken
      taken_Inv clear_answers
