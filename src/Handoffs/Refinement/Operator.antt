-- ===== src/Handoffs/Refinement/Operator.antt =====
-- `run_promote_handoff` and `run_cancel_handoff` as runs of the protocol.
use bridge_db.Prelude.{
  ℕ, String, ◌≢◌, Bool, true, false, ◌&&◌, ◌||◌, not, Option, none, some, [], ◌∷◌, count_where,
  update_where, arith, is_some, if◌then◌else◌, ◌==◌, ◌!=◌, nat_eq, string_eq,
}
use bridge_db.Models.{operator, trust_eq}
use bridge_db.Exec.{Exec, pure, ◌>>=◌, ◌>>◌}
use bridge_db.Platform.{Platform}
use bridge_db.Handoffs.Tables.{
  Handoff, Tables, pending, active, cleared, handoff, status_eq, status_beq_iff,
}
use bridge_db.Handoffs.Store.{Store, get_tables, put_tables}
use bridge_db.Handoffs.Ceremonies.{
  Ceremony, agreed, answered, row_digest, promotable, promote_row, promote_locked, promote_reviewed,
  run_promote_handoff, audit_promotion, cancellable, cancel_locked, cancel_reviewed,
  run_cancel_handoff, write_promotion, write_cancellation, lock_and_promote, lock_and_cancel,
}
use bridge_db.Handoffs.Protocol.{Run, Step, here, append_run}
use bridge_db.Handoffs.Refinement.Composed.{Runs, choose}

module _ (pf : Platform) (env : Ceremony) (others : (t : Tables) → Run pf t (env.between t))
    (id : ℕ) where
  abbrev refused : Exec Store Bool
  refused = pure false

  promote_locked-Runs :
      (row : Handoff) (o : Option Handoff) → Runs pf (promote_locked pf env id row o)
  promote_locked-Runs row none s = here
  promote_locked-Runs row (some current) s =
      choose pf (current.status != pending || row_digest pf current != row_digest pf row) refused
        (write_promotion pf env id row current) s (λ _. here)
        (λ _.
          choose pf (count_where (promotable id current.source_trust) s.tables.handoffs != 1)
            refused
            (put_tables (record s.tables {
              handoffs =
                  update_where (promotable id current.source_trust) promote_row s.tables.handoffs;
            })
              >> audit_promotion pf env id row)
            s (λ _. here)
            (λ one. Run.after here (Step.promote id current.source_trust (ground arith))))

  promote_reviewed-Runs : (o : Option Handoff) → Runs pf (promote_reviewed pf env id o)
  promote_reviewed-Runs none s = here
  promote_reviewed-Runs (some row) s =
      let after_answer : Exec Store Bool =
        if not (agreed env.answer) then refused else lock_and_promote pf env id row in
      choose pf (row.status != pending) refused
        (if row.source_trust == operator then pure true else after_answer) s (λ _. here)
        (λ _.
          choose pf (row.source_trust == operator) (pure true) after_answer s (λ _. here)
            (λ _.
              choose pf (not (agreed env.answer)) refused (lock_and_promote pf env id row) s
                (λ _. here)
                (λ _. append_run pf (others s.tables) (
                  promote_locked-Runs row (handoff id (env.between s.tables).handoffs)
                    (record s { tables = env.between s.tables })))))

  -- Whatever other connections commit during the review, as long as they follow the protocol,
  -- `run_promote_handoff` commits a run of the protocol.
  pub run_promote_handoff-Runs :
      (s : Store) → Run pf s.tables (run_promote_handoff pf env id s).1.tables
  unfolding run_promote_handoff
  run_promote_handoff-Runs s =
      choose pf (id == 0 || not env.tty) refused
        (get_tables >>= λ t. promote_reviewed pf env id (handoff id t.handoffs)) s (λ _. here)
        (λ _. promote_reviewed-Runs (handoff id s.tables.handoffs) s)

  module _ (reason : String) where
    cancel_locked-Runs :
        (row : Handoff) (o : Option Handoff)
        → row.status ≢ cleared
        → Runs pf (cancel_locked pf env id reason row o)
    cancel_locked-Runs row none open_row s = here
    cancel_locked-Runs row (some current) open_row s =
        choose pf (row_digest pf current != row_digest pf row) refused
          (write_cancellation pf env id reason row) s (λ _. here)
          (λ _.
            choose pf (count_where (cancellable id row.status) s.tables.handoffs != 1) refused _ s
              (λ _. here)
              (λ one. Run.after here (Step.cancel env id reason row open_row (ground arith))))

    cancel_reviewed-Runs : (o : Option Handoff) → Runs pf (cancel_reviewed pf env id reason o)
    cancel_reviewed-Runs none s = here
    cancel_reviewed-Runs (some row) s =
        let after_answer : Exec Store Bool =
          if not (answered ("cancel" ∷ []) env.answer)
          then refused
          else lock_and_cancel pf env id reason row in
        choose pf (row.status == active && is_some row.claimed_by) refused
          (if row.status == cleared then refused else after_answer) s (λ _. here)
          (λ _.
            choose pf (row.status == cleared) refused after_answer s (λ _. here)
              (λ ended.
                choose pf (not (answered ("cancel" ∷ []) env.answer)) refused
                  (lock_and_cancel pf env id reason row) s (λ _. here)
                  (λ _. append_run pf (others s.tables) (
                    cancel_locked-Runs row (handoff id (env.between s.tables).handoffs)
                      (λ e. ground (arith, status_beq_iff row.status cleared))
                      (record s { tables = env.between s.tables })))))

    -- Whatever other connections commit during the review, as long as they follow the protocol,
    -- `run_cancel_handoff` commits a run of the protocol.
    run_cancel_handoff-Runs :
        (s : Store) → Run pf s.tables (run_cancel_handoff pf env id reason s).1.tables
    unfolding run_cancel_handoff
    run_cancel_handoff-Runs s =
        choose pf (id == 0 || reason == "" || not env.tty) refused
          (get_tables >>= λ t. cancel_reviewed pf env id reason (handoff id t.handoffs)) s
          (λ _. here) (λ _. cancel_reviewed-Runs (handoff id s.tables.handoffs) s)
