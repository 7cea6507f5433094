-- ===== src/Witnesses/Lives.antt =====
-- Runs of the protocol on the data of Witnesses/Data.antt.
use bridge_db.Prelude.{arith, strip, lower, refl, some, none, ◌≡◌}
use bridge_db.Models.{Caller, operator, agent}
use bridge_db.Handoffs.Tables.{Tables, Handoff, handoff}
use bridge_db.Handoffs.Create.{
  new_handoff, create_handoff, validate_handoff_payload, insert_handoff,
}
use bridge_db.Auth.{
  require_bound_caller, reject_invalid_credential, bound_grant_state, get_principal,
  clamp_source_trust, auth_mode,
}
use bridge_db.Auth.Grants.{registered}
use bridge_db.Capacity.{require_utf8_bytes, require_combined_bytes, utf8_size}
use bridge_db.Handoffs.Protocol.{Run, here, append_run}
use bridge_db.Handoffs.Invariant.{Inv, empty, empty-Inv, Run-Inv}
use bridge_db.Handoffs.Refinement.Creation.{create_handoff-Runs}
use bridge_db.Handoffs.Refinement.Operator.{run_promote_handoff-Runs}
use bridge_db.Handoffs.Refinement.Tools.{pick_up_handoff-Runs}
use bridge_db.Handoffs.Lifecycle.{Run-Later, Continues}
use bridge_db.Handoffs.Trust.{Run-Trusted, Trusted}
use bridge_db.Handoffs.Quotas.{Run-WithinQuotas, WithinQuotas}
use bridge_db.Witnesses.Data.{
  platform, ai_call, cc_call, payload, mint, same, at_terminal, new_store, dispatched, approved,
  taken,
}

pub undisturbed : (t : Tables) → Run platform t (same t)
undisturbed t = here

pub dispatched_run : Run platform empty dispatched.tables
dispatched_run = create_handoff-Runs platform ai_call Caller.claude_ai payload operator new_store

pub approved_run : Run platform empty approved.tables
approved_run =
    append_run platform dispatched_run
      (run_promote_handoff-Runs platform (at_terminal "y") undisturbed 1 dispatched)

pub taken_run : Run platform empty taken.tables
taken_run =
    append_run platform approved_run
      (pick_up_handoff-Runs platform cc_call Caller.cc 1 same mint undisturbed approved)

Run-Inv_example : Inv taken.tables
Run-Inv_example = Run-Inv platform taken_run empty-Inv

Run-Trusted_example : Trusted taken.tables
Run-Trusted_example = Run-Trusted platform taken_run refl

abbrev row : Handoff
row = new_handoff 1 payload none agent "2026-01-01T00:00:00Z"

dispatched_row : handoff 1 dispatched.tables.handoffs ≡ some row
unfolding create_handoff require_bound_caller reject_invalid_credential bound_grant_state
    get_principal registered clamp_source_trust auth_mode validate_handoff_payload
    require_utf8_bytes require_combined_bytes utf8_size insert_handoff strip lower
dispatched_row = refl

Run-Later_example : Continues 1 row taken.tables.handoffs
Run-Later_example =
    Run-Later platform 1 row
      (append_run platform
        (run_promote_handoff-Runs platform (at_terminal "y") undisturbed 1 dispatched)
        (pick_up_handoff-Runs platform cc_call Caller.cc 1 same mint undisturbed approved))
      dispatched_row

Run-WithinQuotas_example : WithinQuotas taken.tables.handoffs
Run-WithinQuotas_example =
    Run-WithinQuotas platform taken_run (record { few_open = omega arith; few_rows = omega arith })
